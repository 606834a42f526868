-- ===== src/Replay/Inject.antt =====
-- controller/internal/replay/inject: the profile of synthetic faults (config.go), the ground truth
-- (groundtruth.go) and the targets (injector.go). Times are nanoseconds.
pub mod Faults
pub mod Injector
pub mod Scorer
use Prim.Native.String.{◌++◌}
use anomaly_detection.Prelude.{
  ℕ, String, Bool, true, false, not, ◌&&◌, ◌||◌, List, [], ◌∷◌, ◌==◌, Option, none, some, leb, map,
  if◌then◌else◌,
}
use anomaly_detection.Float64.{Float64}
use anomaly_detection.Labels.{Labels, get}
use anomaly_detection.Baseline.Keys.{sort_strings}

pub record TargetSpec : Type 0 where
  pub metric : String
  pub labels : Labels

-- `fault_type` is the text of the profile, which the validation has yet to restrict.
pub record InjectionEntry (F : Type 0) : Type 0 where
  pub target : TargetSpec
  pub fault_type : String
  pub start : ℕ
  pub end : ℕ
  pub magnitude : F

pub record InjectionConfig (F : Type 0) : Type 0 where
  pub seed : ℕ
  pub injections : List (InjectionEntry F)

pub record GroundTruth (F : Type 0) : Type 0 where
  pub target : String
  pub fault_type : String
  pub start : ℕ
  pub end : ℕ
  pub magnitude : F

-- the errors of `validate`
pub data ProfileError : Type 0 where
  metric_required unknown_type end_not_after_start magnitude_not_positive : ProfileError

-- the types of the constants FaultSpike, FaultRamp, FaultStep and FaultSilence
abbrev is_fault_type : String → Bool
is_fault_type t = t == "spike" || (t == "ramp" || (t == "step" || t == "silence"))

module _ {F : Type 0} ⦃fl : Float64 F⦄ where
  unfoldable pub validate_entry : InjectionEntry F → Option ProfileError
  validate_entry e =
      if e.target.metric == ""
      then some metric_required
      else if not (is_fault_type e.fault_type)
      then some unknown_type
      else if leb e.end e.start
      then some end_not_after_start
      else if fl.le e.magnitude (fl.lit 0 1) && not (e.fault_type == "silence")
      then some magnitude_not_positive
      else none

  -- `validate`: the first error, if there is one
  unfoldable pub validate_profile : List (InjectionEntry F) → Option ProfileError
  unfolding validate_entry
  validate_profile [] = none
  validate_profile (e ∷ entries) =
      let rest = validate_profile entries in
      elim (validate_entry e) [ some err ↦ some err | none ↦ rest ]

-- the keys of the labels without __name__
unfoldable pub fingerprint_keys : Labels → List String
fingerprint_keys [] = []
fingerprint_keys ((k, v) ∷ labels) =
    let rest = fingerprint_keys labels in if k == "__name__" then rest else k ∷ rest

-- the text "k=v" for each key, with commas between
unfoldable pub write_pairs : Labels → List String → String
write_pairs labels [] = ""
write_pairs labels (k ∷ keys) =
    let pair = k ++ ("=" ++ get labels k) in
    let rest = write_pairs labels keys in elim keys [ [] ↦ pair | _ ∷ _ ↦ pair ++ ("," ++ rest) ]

-- `Fingerprint`
unfoldable pub target_fingerprint : String → Labels → String
unfolding fingerprint_keys write_pairs
target_fingerprint metric [] = metric
target_fingerprint metric (l ∷ labels) =
    let all = l ∷ labels in
    metric ++ ("{" ++ (write_pairs all (sort_strings (fingerprint_keys all)) ++ "}"))

-- `matchLabels`
unfoldable pub match_labels : Labels → Labels → Bool
match_labels [] actual = true
match_labels ((k, v) ∷ required) actual =
    if get actual k == v then match_labels required actual else false
