-- ===== src/Absence.antt =====
-- controller/internal/absence/tracker.go: the absence-of-signal detector. Times and durations are
-- nanoseconds; a negative duration in the configuration is left out. `print_series` is
-- fmt.Sprintf("%s:%v", metric, labels), which is no part of the repository; the lock makes each
-- operation one step.
pub mod Silence
use Prim.Native.Char.{code}
use Prim.Native.String
use anomaly_detection.Prelude.{
  ℕ, ◌+◌, ◌-◌, ◌*◌, String, Bool, true, false, not, ◌&&◌, ◌||◌, Option, none, some, List, [], ◌∷◌,
  ◌==◌, nat_beq, ltb, leb, length, if◌then◌else◌,
}
use anomaly_detection.Labels.{Labels, get, lookup, insert}

-- the struct `Config`
pub record AbsenceConfig : Type 0 where
  pub enabled : Bool
  pub silence_threshold : ℕ
  pub check_interval : ℕ
  pub startup_grace : ℕ
  pub suppress_patterns : List String

-- the struct `Alert`
pub record AbsenceAlert : Type 0 where
  pub series_key : String
  pub metric : String
  pub labels : Labels
  pub last_seen : ℕ
  pub silent_for : ℕ

pub record SeriesState : Type 0 where
  pub metric : String
  pub labels : Labels
  pub last_seen : ℕ

pub record Tracker : Type 0 where
  pub series : List (String × SeriesState)
  pub cfg : AbsenceConfig
  pub started_at : ℕ
  pub suppressed : List String

-- if x == 0 { x = d }
abbrev or_default : ℕ → ℕ → ℕ
or_default x d = if nat_beq x 0 then d else x

-- the defaults of `NewTracker`: five minutes, thirty seconds, and twice the threshold
unfoldable pub with_defaults : AbsenceConfig → AbsenceConfig
with_defaults cfg =
    let threshold = or_default cfg.silence_threshold 300_000_000_000 in
    record cfg {
      silence_threshold = threshold;
      check_interval = or_default cfg.check_interval 30_000_000_000;
      startup_grace = or_default cfg.startup_grace (2 * threshold);
    }

unfoldable pub new_tracker : AbsenceConfig → ℕ → Tracker
unfolding with_defaults
new_tracker cfg now = record {
  series = [];
  cfg = with_defaults cfg;
  started_at = now;
  suppressed = cfg.suppress_patterns;
}

-- `matchPattern`: the text is the pattern, or begins with the text before the pattern's last `*`
unfoldable pub match_pattern : String → String → Bool
match_pattern String.[] v = v == ""
match_pattern (String.◌∷◌ c String.[]) String.[] = nat_beq (code c) b'*'
match_pattern (String.◌∷◌ c String.[]) (String.◌∷◌ d v) =
    nat_beq (code c) b'*' || (nat_beq (code c) (code d) && v == "")
match_pattern (String.◌∷◌ c (String.◌∷◌ b p)) String.[] = false
match_pattern (String.◌∷◌ c (String.◌∷◌ b p)) (String.◌∷◌ d v) =
    let rest = match_pattern (String.◌∷◌ b p) v in if nat_beq (code c) (code d) then rest else false

unfoldable pub any_matches : List String → String → Bool
unfolding match_pattern
any_matches [] ns = false
any_matches (p ∷ patterns) ns = match_pattern p ns || any_matches patterns ns

-- `isSuppressed`
unfoldable pub is_suppressed : Tracker → Labels → Bool
is_suppressed t labels =
    let ns = get labels "namespace" in if ns == "" then false else any_matches t.suppressed ns

-- the entry of a series behind `RecordSample`
abbrev pub seen_again : Option SeriesState → String → Labels → ℕ → SeriesState
seen_again none metric labels now = record { metric = metric; labels = labels; last_seen = now }
seen_again (some s) metric labels now = record s { last_seen = now }

module _ (print_series : String → Labels → String) where
  unfoldable pub record_sample : String → Labels → ℕ → Tracker → Tracker
  record_sample metric labels now t =
      let key = print_series metric labels in
      record t { series = insert key (seen_again (lookup key t.series) metric labels now) t.series }

  -- the round of the loop of `Check` for a series: its alert, or none
  unfoldable pub silence_alert : Tracker → ℕ → SeriesState → Option AbsenceAlert
  silence_alert t now s =
      let silent_for = now - s.last_seen in
      if leb silent_for t.cfg.silence_threshold
      then none
      else if is_suppressed t s.labels
      then none
      else some (record {
        series_key = print_series s.metric s.labels;
        metric = s.metric;
        labels = s.labels;
        last_seen = s.last_seen;
        silent_for = silent_for;
      })

  unfoldable pub check_series : Tracker → ℕ → List (String × SeriesState) → List AbsenceAlert
  check_series t now [] = []
  check_series t now ((key, s) ∷ series) =
      let rest = check_series t now series in
      elim (silence_alert t now s) [ none ↦ rest | some alert ↦ alert ∷ rest ]

  -- `Check`
  unfoldable pub check : Tracker → ℕ → List AbsenceAlert
  check t now =
      if not t.cfg.enabled
      then []
      else if ltb (now - t.started_at) t.cfg.startup_grace
      then []
      else check_series t now t.series

unfoldable pub series_tracked : Tracker → ℕ
series_tracked t = length t.series
