-- ===== src/Config/Validate.antt =====
-- controller/internal/config/config.go: what `validate` guarantees of the maps of the filters.
use anomaly_detection.Prelude.{
  String, ◌≡◌, ◌≢◌, sym, ◌∙◌, inl, inr, refl, false, ◌&&◌, List, [], ◌∷◌, ◌==◌, none, some, All,
  arith, eq_iff, Bool-cases, if◌then◌else◌,
}
use anomaly_detection.Float64.{Float64}
use anomaly_detection.Detection.{Anomaly}
use anomaly_detection.Detection.Floor.{below_floor, drops_by_floor}
use anomaly_detection.Labels.{lookup, insert, lookup-insert}
use anomaly_detection.Config.{
  AdaptiveMetric, DetectionConfig, direction_entries, direction_map, floor_entries, floor_map,
  validate,
}

module _ {F : Type 0} where
  -- no two rules have the same name
  abbrev pub IsNamed : List (AdaptiveMetric F) → Type 0
  IsNamed [] = Unit
  IsNamed (am ∷ rest) = All (λ b. am.name ≢ b.name) rest × IsNamed rest

  module _ ⦃fl : Float64 F⦄ where
    -- the maps so far give no name both the direction down_bad and a floor
    abbrev Apart : List (String × String) → List (String × F) → Type 0
    Apart dirs floors =
        (name : String) → lookup name dirs ≡ some "down_bad" → lookup name floors ≡ none

    abbrev Unused : List (AdaptiveMetric F) → List (String × String) → List (String × F) → Type 0
    Unused rules dirs floors =
        All (λ b. (lookup b.name dirs ≡ none) × (lookup b.name floors ≡ none)) rules

    abbrev next_dirs : AdaptiveMetric F → List (String × String) → List (String × String)
    next_dirs am m = if am.direction == "" then m else insert am.name am.direction m

    abbrev next_floors : AdaptiveMetric F → List (String × F) → List (String × F)
    next_floors am m = if fl.lt (fl.lit 0 1) am.min_value then insert am.name am.min_value m else m

    next-other :
        (am : AdaptiveMetric F) (name : String) (dirs : List (String × String))
        (floors : List (String × F))
        → am.name ≢ name
        → (lookup name (next_dirs am dirs) ≡ lookup name dirs)
          × (lookup name (next_floors am floors) ≡ lookup name floors)
    next-other am name dirs floors h = ground (
      arith,
      eq_iff am.name name,
      lookup-insert am.name name am.direction dirs,
      lookup-insert am.name name am.min_value floors,
    )

    Unused-next :
        (am : AdaptiveMetric F) (rules : List (AdaptiveMetric F)) (dirs : List (String × String))
        (floors : List (String × F))
        → All (λ b. am.name ≢ b.name) rules
        → Unused rules dirs floors
        → Unused rules (next_dirs am dirs) (next_floors am floors)
    Unused-next am [] dirs floors n u = tt
    Unused-next am (b ∷ rules) dirs floors n u =
        let (d, f) = next-other am b.name dirs floors n.0 in
        ((d ∙ u.0.0, f ∙ u.0.1), Unused-next am rules dirs floors n.1 u.1)

    Apart-next :
        (am : AdaptiveMetric F) (dirs : List (String × String)) (floors : List (String × F))
        → (fl.lt (fl.lit 0 1) am.min_value && am.direction == "down_bad") ≡ false
        → (lookup am.name dirs ≡ none) × (lookup am.name floors ≡ none)
        → Apart dirs floors
        → Apart (next_dirs am dirs) (next_floors am floors)
    Apart-next am dirs floors ok fresh apart name h = elim (Bool-cases (am.name == name)) [
      | inl same ↦ ground (
        arith,
        eq_iff am.name name,
        eq_iff am.direction "down_bad",
        lookup-insert am.name name am.direction dirs,
        lookup-insert am.name name am.min_value floors,
        apart name,
      )
      | inr other ↦
          let (d, f) = next-other am name dirs floors (ground (arith, eq_iff am.name name)) in
          f ∙ apart name (sym d ∙ h)
    ]

    entries-Apart :
        (rules : List (AdaptiveMetric F)) (dirs : List (String × String))
        (floors : List (String × F))
        → IsNamed rules
        → validate rules ≡ none
        → Unused rules dirs floors
        → Apart dirs floors
        → Apart (direction_entries rules dirs) (floor_entries rules floors)
    unfolding direction_entries floor_entries validate
    entries-Apart [] dirs floors n v u apart = apart
    entries-Apart (am ∷ rules) dirs floors n v u apart =
        elim (Bool-cases (fl.lt (fl.lit 0 1) am.min_value && am.direction == "down_bad")) [
          | inl bad ↦ let no : some am.name ≡ none = rw bad at v in cc
          | inr ok ↦
              entries-Apart rules (next_dirs am dirs) (next_floors am floors) n.1 (rw ok at v)
                (Unused-next am rules dirs floors n.0 u.1) (Apart-next am dirs floors ok u.0 apart)
        ]

    Unused-start : (rules : List (AdaptiveMetric F)) → Unused rules [] []
    unfolding lookup
    Unused-start [] = tt
    Unused-start (b ∷ rules) = ((refl, refl), Unused-start rules)

    floor_or_not :
        (a : Anomaly F) (floors : List (String × F))
        → lookup a.metric_name floors ≡ none
        → drops_by_floor floors a ≡ false
    unfolding drops_by_floor below_floor
    floor_or_not a floors h = rw h (ground arith)

    -- With distinct rule names and a configuration that `validate` accepts, the floor filter drops no
    -- anomaly of a rule whose direction is down_bad.
    pub validate_keeps_down_bad :
        (d : DetectionConfig F) (a : Anomaly F)
        → IsNamed d.adaptive_metrics
        → validate d.adaptive_metrics ≡ none
        → lookup a.metric_name (direction_map d) ≡ some "down_bad"
        → drops_by_floor (floor_map d) a ≡ false
    unfolding direction_map floor_map
    validate_keeps_down_bad d a named ok dir =
        floor_or_not a (floor_entries d.adaptive_metrics []) (
          entries-Apart d.adaptive_metrics [] [] named ok (Unused-start d.adaptive_metrics)
            (λ name. unfold lookup in λ h. cc) a.metric_name dir)
