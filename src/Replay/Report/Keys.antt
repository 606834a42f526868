-- ===== src/Replay/Report/Keys.antt =====
-- controller/internal/replay/report.go: `splitWorkloadKey`, which takes apart the keys of the
-- workload counts.
use Prim.Native.Char.{Char, code}
use Prim.Native.String.{[], ◌∷◌, ◌++◌}
use text.Mathlib.TextLemmas.{nil-append, cons-append}
use anomaly_detection.Prelude.{
  ◌≡◌, refl, ap, String, Bool, true, not, Option, none, some, nat_beq, Bool-cases, inl, inr, arith,
  if◌then◌else◌,
}
use anomaly_detection.Labels.{get}
use anomaly_detection.Detection.{Anomaly}
use anomaly_detection.Correlation.Workload.{every}
use anomaly_detection.Replay.Report.{workload_name, report_key}

abbrev pub is_slash : Char → Bool
is_slash c = nat_beq (code c) b'/'

-- one more character in front of the first part
abbrev in_front : Char → Option (String × String) → Option (String × String)
in_front c none = none
in_front c (some parts) = some (c ∷ parts.0, parts.1)

-- the text before the first slash and the text behind it
unfoldable pub first_slash : String → Option (String × String)
first_slash [] = none
first_slash (c ∷ s) =
    let rest = first_slash s in if is_slash c then some ([], s) else in_front c rest

abbrev or_whole : String → Option (String × String) → String × String
or_whole key none = ("", key)
or_whole key (some parts) = parts

-- `splitWorkloadKey`
unfoldable pub split_workload_key : String → String × String
unfolding first_slash
split_workload_key key = or_whole key (first_slash key)

abbrev pub no_slash : Char → Bool
no_slash c = not (is_slash c)

first_slash-key :
    (ns wl : String) → every no_slash ns ≡ true → first_slash (ns ++ ("/" ++ wl)) ≡ some (ns, wl)
unfolding first_slash every
first_slash-key [] wl h = rw (nil-append, cons-append, nil-append) refl
first_slash-key (c ∷ ns) wl h = elim (Bool-cases (is_slash c)) [
  | inl e ↦ absurd (ground (arith, h, e))
  | inr e ↦
      let rest : every no_slash ns ≡ true = ground (arith, h, e) in
      rw (cons-append, e) (ap (in_front c) (first_slash-key ns wl rest))
]

-- For an anomaly whose namespace has no slash, the key under which the report counts it splits into
-- its namespace and its workload, also where the name of the workload holds slashes.
pub split_workload_key-report_key :
    {F : Type 0} (a : Anomaly F)
    → every no_slash (get a.labels "namespace") ≡ true
    → split_workload_key (report_key a) ≡ (get a.labels "namespace", workload_name a)
unfolding split_workload_key report_key
split_workload_key-report_key a h =
    ap (or_whole (report_key a)) (first_slash-key (get a.labels "namespace") (workload_name a) h)
