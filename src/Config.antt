-- ===== src/Config.antt =====
-- controller/internal/config/config.go: the rules for detection, the two maps that the filters
-- take, and the validation of the rules.
pub mod Csv
pub mod Defaults
pub mod Validate
use anomaly_detection.Prelude.{
  String, Bool, true, false, not, ◌&&◌, List, [], ◌∷◌, ◌==◌, Option, none, some, if◌then◌else◌,
}
use anomaly_detection.Float64.{Float64}
use anomaly_detection.Labels.{insert}
use anomaly_detection.Detection.Static.{StaticRule}

pub record AdaptiveMetric (F : Type 0) : Type 0 where
  pub name : String
  pub query : String
  pub group_by : List String
  pub direction : String
  pub min_value : F

pub record LogPattern : Type 0 where
  pub name : String
  pub query : String
  pub group_by : List String
  pub pattern_type : String

pub record DetectionConfig (F : Type 0) : Type 0 where
  pub static_rules : List (StaticRule F)
  pub adaptive_metrics : List (AdaptiveMetric F)
  pub log_patterns : List LogPattern
  pub event_patterns : List String

module _ {F : Type 0} where
  -- the loop of `DirectionMap` from the map so far
  unfoldable pub direction_entries :
      List (AdaptiveMetric F) → List (String × String) → List (String × String)
  direction_entries [] m = m
  direction_entries (am ∷ rest) m =
      direction_entries rest (if am.direction == "" then m else insert am.name am.direction m)

  unfoldable pub direction_map : DetectionConfig F → List (String × String)
  unfolding direction_entries
  direction_map d = direction_entries d.adaptive_metrics []

  module _ ⦃fl : Float64 F⦄ where
    unfoldable pub floor_entries : List (AdaptiveMetric F) → List (String × F) → List (String × F)
    floor_entries [] m = m
    floor_entries (am ∷ rest) m =
        floor_entries rest
          (if fl.lt (fl.lit 0 1) am.min_value then insert am.name am.min_value m else m)

    unfoldable pub floor_map : DetectionConfig F → List (String × F)
    unfolding floor_entries
    floor_map d = floor_entries d.adaptive_metrics []

    -- `validate`: the name of the first rule with the refused combination, if there is one
    unfoldable pub validate : List (AdaptiveMetric F) → Option String
    validate [] = none
    validate (am ∷ rest) =
        let later = validate rest in
        if fl.lt (fl.lit 0 1) am.min_value && am.direction == "down_bad"
        then some am.name
        else later
