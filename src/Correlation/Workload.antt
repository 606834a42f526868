-- ===== src/Correlation/Workload.antt =====
-- controller/internal/correlation/workload.go: the workload name behind a pod name. The three
-- regular expressions are anchored, and behind the name they hold literal dashes and classes with
-- no dash, so that a match is found by cutting at the last dashes; `Patterns` proves that this
-- finds exactly the matches. (`.` matches all but a line feed.)
pub mod Cuts
pub mod Patterns
use Prim.Native.Char.{Char, code}
use Prim.Native.String.{[], ◌∷◌, count}
use anomaly_detection.Prelude.{
  ℕ, String, Bool, true, false, not, ◌&&◌, ◌||◌, Option, none, some, ◌==◌, nat_beq, leb,
  if◌then◌else◌,
}

unfoldable pub every : (Char → Bool) → String → Bool
every p [] = true
every p (c ∷ s) = p c && every p s

abbrev pub between : ℕ → ℕ → Char → Bool
between lo hi c = leb lo (code c) && leb (code c) hi

abbrev pub is_dash : Char → Bool
is_dash c = nat_beq (code c) b'-'

-- the classes \d, [a-f0-9], [a-z0-9] and .
abbrev pub is_digit : Char → Bool
is_digit = between b'0' b'9'

abbrev pub is_hex : Char → Bool
is_hex c = between b'a' b'f' c || is_digit c

abbrev pub is_alnum : Char → Bool
is_alnum c = between b'a' b'z' c || is_digit c

abbrev pub is_any : Char → Bool
is_any c = not (nat_beq (code c) 10)

-- the text before the last dash and the text behind it
unfoldable pub cut : String → Option (String × String)
cut [] = none
cut (c ∷ s) = elim (cut s) [
  | some r ↦ some (c ∷ r.0, r.1)
  | none ↦ if is_dash c then some ([], s) else none
]

-- (.+)
unfoldable pub is_name : String → Bool
unfolding every
is_name s = not (s == "") && every is_any s

-- [a-f0-9]{8,10}
unfoldable pub is_rs_hash : String → Bool
unfolding every
is_rs_hash s = every is_hex s && (leb 8 (count s) && leb (count s) 10)

-- [a-z0-9]{5}
unfoldable pub is_suffix : String → Bool
unfolding every
is_suffix s = every is_alnum s && nat_beq (count s) 5

-- \d+
unfoldable pub is_number : String → Bool
unfolding every
is_number s = not (s == "") && every is_digit s

-- FindStringSubmatch of `^(.+)-TAIL$`, for the class of the tail
unfoldable pub name_before : (String → Bool) → Option (String × String) → Option String
unfolding is_name
name_before tail none = none
name_before tail (some (name, rest)) = if tail rest && is_name name then some name else none

unfoldable pub match_replica : (String → Bool) → Option (String × String) → Option String
unfolding name_before cut is_rs_hash
match_replica tail none = none
match_replica tail (some (front, rest)) =
    if tail rest then name_before is_rs_hash (cut front) else none

-- ^(.+)-[a-f0-9]{8,10}-[a-z0-9]{5}$
unfoldable pub deployment_pattern : String → Option String
unfolding match_replica is_suffix
deployment_pattern pod = match_replica is_suffix (cut pod)

-- ^(.+)-(\d+)$
unfoldable pub stateful_set_pattern : String → Option String
unfolding name_before cut is_number
stateful_set_pattern pod = name_before is_number (cut pod)

-- ^(.+)-[a-z0-9]{5}$
unfoldable pub daemon_set_pattern : String → Option String
unfolding name_before cut is_suffix
daemon_set_pattern pod = name_before is_suffix (cut pod)

abbrev pub or_else : Option String → String → String
or_else none d = d
or_else (some w) d = w

-- `ExtractWorkload`
unfoldable pub extract_workload : String → String
extract_workload pod =
    if pod == ""
    then ""
    else or_else (deployment_pattern pod)
        (or_else (stateful_set_pattern pod) (or_else (daemon_set_pattern pod) pod))
