-- ===== src/Replay/Window.antt =====
-- controller/internal/replay/window.go: `ParseWindow`, the range of a replay from its flags. Times
-- and durations are nanoseconds, signed; the parsers of the library are parameters.
pub mod Accepted
use Prim.Native.Char.{Char, code}
use Prim.Native.String.{[], ◌∷◌}
use anomaly_detection.Prelude.{
  ℕ, zero, suc, ◌+◌, ◌-◌, ◌*◌, ◌%◌, ◌^◌, String, Bool, true, false, not, ◌&&◌, ◌||◌, Option, none,
  some, ◌==◌, nat_beq, ltb, if◌then◌else◌,
}
use anomaly_detection.Prelude.Int.{ℤ, pos, negsuc, add_ℤ, sub_ℤ, ltb_ℤ, leb_ℤ}

-- the errors of `ParseWindow` and of the parsers that it calls
pub data WindowError : Type 0 where
  from_required negative_days negative_duration not_a_time : WindowError
  from_not_before_to to_in_future below_minimum above_maximum : WindowError

pub data WindowResult (A : Type 0) : Type 0 where
  accepted : A → WindowResult A
  rejected : WindowError → WindowResult A

-- fmt.Sscanf(s, "%d", &n), time.ParseDuration and time.Parse(time.RFC3339, s)
pub record TimeParsers : Type 0 where
  pub scan_int : String → Option ℤ
  pub parse_duration : String → Option ℤ
  pub parse_rfc3339 : String → Option ℤ

abbrev pub minute : ℕ
minute = 60 * 10 ^ 9

-- MinWindow, DefaultMaxWindow, futureSlack
abbrev pub min_window : ℤ
min_window = pos (150 * minute)

abbrev pub default_max_window : ℤ
default_max_window = pos (7 * 24 * 60 * minute)

abbrev pub future_slack : ℤ
future_slack = pos (5 * minute)

-- a number of nanoseconds as an int64
unfoldable pub int64_of : ℕ → ℤ
int64_of n = let m = n % 2 ^ 64 in if ltb m (2 ^ 63) then pos m else sub_ℤ (pos m) (pos (2 ^ 64))

abbrev with_first : Char → Option String → Option String
with_first c none = none
with_first c (some s) = some (c ∷ s)

-- the text before a last 'd', if there is one
unfoldable pub before_d : String → Option String
before_d [] = none
before_d (c ∷ []) = if nat_beq (code c) b'd' then some [] else none
before_d (c ∷ d ∷ s) = with_first c (before_d (d ∷ s))

-- the number of days scanned
unfoldable pub days_of : Option ℤ → Option (WindowResult ℤ)
unfolding int64_of
days_of none = none
days_of (some (pos n)) = some (accepted (int64_of (n * (24 * 60 * minute))))
days_of (some (negsuc n)) = some (rejected negative_days)

-- `parseDays`; `none` is a text of another form, one that is shorter than two included
unfoldable pub parse_days : TimeParsers → String → Option (WindowResult ℤ)
unfolding before_d days_of
parse_days parsers s = elim (before_d s) [
  | none ↦ none
  | some num ↦ if num == "" then none else days_of (parsers.scan_int num)
]

-- the fallback of `parseTimeOrDuration`
unfoldable pub time_of : Option ℤ → WindowResult ℤ
time_of none = rejected not_a_time
time_of (some t) = accepted t

unfoldable pub duration_or_time : TimeParsers → String → ℤ → Option ℤ → WindowResult ℤ
unfolding time_of
duration_or_time parsers s now none = time_of (parsers.parse_rfc3339 s)
duration_or_time parsers s now (some d) =
    if ltb_ℤ d (pos 0) then rejected negative_duration else accepted (sub_ℤ now d)

unfoldable pub days_or_else : TimeParsers → String → ℤ → Option (WindowResult ℤ) → WindowResult ℤ
unfolding duration_or_time
days_or_else parsers s now none = duration_or_time parsers s now (parsers.parse_duration s)
days_or_else parsers s now (some (rejected e)) = rejected e
days_or_else parsers s now (some (accepted d)) = accepted (sub_ℤ now d)

-- `parseTimeOrDuration`
unfoldable pub parse_time_or_duration : TimeParsers → String → ℤ → WindowResult ℤ
unfolding days_or_else parse_days
parse_time_or_duration parsers s now = days_or_else parsers s now (parse_days parsers s)

-- the checks of `ParseWindow` on the two times
unfoldable pub check_window : ℤ → ℤ → ℤ → ℤ → WindowResult (ℤ × ℤ)
check_window now max_range from to =
    let window = sub_ℤ to from in
    if not (ltb_ℤ from to)
    then rejected from_not_before_to
    else if ltb_ℤ (add_ℤ now future_slack) to
    then rejected to_in_future
    else if ltb_ℤ window min_window
    then rejected below_minimum
    else if ltb_ℤ max_range window
    then rejected above_maximum
    else accepted (from, to)

unfoldable pub check_to : ℤ → ℤ → ℤ → WindowResult ℤ → WindowResult (ℤ × ℤ)
unfolding check_window
check_to now max_range from (rejected e) = rejected e
check_to now max_range from (accepted to) = check_window now max_range from to

unfoldable pub check_from : TimeParsers → ℤ → ℤ → String → WindowResult ℤ → WindowResult (ℤ × ℤ)
unfolding check_to
check_from parsers now max_range to_str (rejected e) = rejected e
check_from parsers now max_range to_str (accepted from) = check_to now max_range from (
    if to_str == "" || to_str == "now"
    then accepted now
    else parse_time_or_duration parsers to_str now)

-- the largest range, the default for one that is not positive
abbrev pub range_or_default : ℤ → ℤ
range_or_default r = if leb_ℤ r (pos 0) then default_max_window else r

-- `ParseWindow`
unfoldable pub parse_window : TimeParsers → ℤ → String → String → ℤ → WindowResult (ℤ × ℤ)
unfolding check_from parse_time_or_duration
parse_window parsers now from_str to_str max_range =
    if from_str == ""
    then rejected from_required
    else check_from parsers now (range_or_default max_range) to_str
        (parse_time_or_duration parsers from_str now)
