-- ===== src/Replay/Engine/Run/Filtered.antt =====
-- controller/internal/replay: the filters and the report of a tick invent nothing, and an anomaly has
-- the time of its tick.
use anomaly_detection.Prelude.{
  ℕ, ◌+◌, ◌≤◌, ◌≡◌, refl, Bool, false, not, List, [], ◌∷◌, ◌++◌, map, select, count_if,
  count_if-append, ltb, arith, Bool-cases, inl, inr, if◌then◌else◌,
}
use anomaly_detection.Float64.{Float64}
use anomaly_detection.Detection.{Anomaly}
use anomaly_detection.Detection.Direction.{drops_by_direction, filter_by_direction}
use anomaly_detection.Detection.Direction.Kept.{filter_by_direction_lem}
use anomaly_detection.Detection.Floor.{drops_by_floor, filter_by_floor}
use anomaly_detection.Detection.Floor.Kept.{filter_by_floor_lem}
use anomaly_detection.Detection.Fdr.{new_fdr}
use anomaly_detection.Detection.Fdr.Apply.{apply_fdr_accounts}
use anomaly_detection.Config.{DetectionConfig, direction_map, floor_map}
use anomaly_detection.Replay.Report.{
  ReportBuilder, append_anomaly, is_full, add_anomaly, add_anomalies,
}
use anomaly_detection.Replay.Tick.{tick_filter}
use anomaly_detection.Replay.Engine.{Plan, at_tick}

module _ {F : Type 0} where
  -- an anomaly of the warm-up
  abbrev pub is_early : Plan F → Anomaly F → Bool
  is_early p a = ltb a.timestamp p.warmup_end

  count_if-select :
      (q r : Anomaly F → Bool) (xs : List (Anomaly F)) → count_if q (select r xs) ≤ count_if q xs
  count_if-select q r [] = omega arith
  count_if-select q r (x ∷ xs) = ground (arith, count_if-select q r xs)

  count_if-add_anomaly :
      (q : Anomaly F → Bool) (b : ReportBuilder F) (a : Anomaly F)
      → count_if q (add_anomaly b a).anomalies ≤ count_if q b.anomalies + count_if q (a ∷ [])
  unfolding add_anomaly append_anomaly
  count_if-add_anomaly q b a = elim (Bool-cases (is_full b)) [
    | inl e ↦ rw (add_anomaly, e) (omega arith)
    | inr e ↦ rw (add_anomaly, e) (omega (arith, count_if-append q b.anomalies (a ∷ [])))
  ]

  pub count_if-add_anomalies :
      (q : Anomaly F → Bool) (b : ReportBuilder F) (xs : List (Anomaly F))
      → count_if q (add_anomalies b xs).anomalies ≤ count_if q b.anomalies + count_if q xs
  unfolding add_anomalies
  count_if-add_anomalies q b [] = omega arith
  count_if-add_anomalies q b (a ∷ xs) =
      ground (arith, count_if-add_anomaly q b a, count_if-add_anomalies q (add_anomaly b a) xs)

  module _ ⦃fl : Float64 F⦄ where
    -- the filters of a tick invent nothing
    pub count_if-tick_filter :
        (q : Anomaly F → Bool) (d : DetectionConfig F) (target : F) (xs : List (Anomaly F)) (n : ℕ)
        → count_if q (tick_filter d target xs n).accepted ≤ count_if q xs
    unfolding tick_filter
    count_if-tick_filter q d target [] n = omega arith
    count_if-tick_filter q d target (x ∷ xs) n =
        let directed = filter_by_direction (x ∷ xs) (direction_map d) in
        let floored = filter_by_floor directed.0 (floor_map d) in
        let by_direction : count_if q directed.0 ≤ count_if q (x ∷ xs) =
          rw (filter_by_direction_lem (x ∷ xs) (direction_map d)).0
            (count_if-select q (λ a. not (drops_by_direction (direction_map d) a)) (x ∷ xs)) in
        let by_floor : count_if q floored.0 ≤ count_if q directed.0 =
          rw (filter_by_floor_lem directed.0 (floor_map d)).0
            (count_if-select q (λ a. not (drops_by_floor (floor_map d) a)) directed.0) in
        omega (arith, by_direction, by_floor, (apply_fdr_accounts (new_fdr target) floored.0 n).1 q)

  -- none of the anomalies gathered is one of the warm-up
  abbrev pub IsPast : Plan F → List (Anomaly F) → Type 0
  IsPast p xs = count_if (is_early p) xs ≡ 0

  pub at_tick-IsPast :
      (p : Plan F) (tick : ℕ) (xs : List (Anomaly F))
      → ltb tick p.warmup_end ≡ false
      → IsPast p (map (at_tick tick) xs)
  at_tick-IsPast p tick [] late = refl
  at_tick-IsPast p tick (x ∷ xs) late = rw late (at_tick-IsPast p tick xs late)

  -- what a rule adds at a tick
  pub added-IsPast :
      (p : Plan F) (tick : ℕ) (xs found : List (Anomaly F))
      → IsPast p xs
      → IsPast p (if ltb tick p.warmup_end then xs else xs ++ map (at_tick tick) found)
  added-IsPast p tick xs found h = elim (Bool-cases (ltb tick p.warmup_end)) [
    | inl e ↦ rw e h
    | inr e ↦ rw e (
        omega (
          arith,
          h,
          count_if-append (is_early p) xs (map (at_tick tick) found),
          at_tick-IsPast p tick found e,
        ))
  ]
