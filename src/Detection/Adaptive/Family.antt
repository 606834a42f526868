-- ===== src/Detection/Adaptive/Family.antt =====
-- controller/internal/detection/adaptive.go: the anomalies and the family size that the adaptive
-- detector hands to the FDR filter.
use anomaly_detection.Prelude.{
  ℕ, suc, ◌≡◌, refl, String, Bool, false, not, ◌&&◌, List, [], ◌∷◌, length, count_if, All, arith,
  if◌then◌else◌,
}
use anomaly_detection.Float64.{Float64}
use anomaly_detection.Labels.{Labels}
use anomaly_detection.Detection.{Anomaly, Sample}
use anomaly_detection.Baseline.{Evaluator, Outcome, evaluated, load_failed, save_failed}
use anomaly_detection.Detection.Adaptive.{collect, evaluate_adaptive}

module _ {F : Type 0} where
  -- an evaluation past the warm-up, without an error
  abbrev pub could_fire : Outcome F → Bool
  could_fire (evaluated r) = not r.is_warming_up
  could_fire load_failed = false
  could_fire save_failed = false

  -- such an evaluation that reports an anomaly
  abbrev pub fires : Outcome F → Bool
  fires (evaluated r) = not r.is_warming_up && r.is_anomaly
  fires load_failed = false
  fires save_failed = false

  module _ ⦃fl : Float64 F⦄ where
    -- an anomaly of the adaptive detector, critical exactly beyond five deviations
    abbrev pub IsAdaptive : Anomaly F → Type 0
    IsAdaptive a =
        (a.detector ≡ "adaptive")
        × (a.severity ≡ (if fl.lt (fl.lit 5 1) a.score then "critical" else "warning"))

    collect-counts :
        (metric : String) (labels : Labels) (now : ℕ) (o : Outcome F) (rest : List (Anomaly F) × ℕ)
        → All IsAdaptive rest.0
        → let (out, tested) = collect metric labels now o rest in
          (tested ≡ (if could_fire o then suc rest.1 else rest.1))
          × (length out ≡ (if fires o then suc (length rest.0) else length rest.0))
          × All IsAdaptive out
    unfolding collect
    collect-counts metric labels now (evaluated r) rest h = ground arith
    collect-counts metric labels now load_failed rest h = (refl, refl, h)
    collect-counts metric labels now save_failed rest h = (refl, refl, h)

    module _ {S : Type 0} (store : Evaluator F S) (metric : String) (now : ℕ) where
      -- the outcomes of the evaluations, in order
      abbrev pub outcomes : List (Sample F) → S → List (Outcome F)
      outcomes [] st = []
      outcomes (s ∷ samples) st =
          let (o, st') = store.evaluate metric s.labels s.value now st in o ∷ outcomes samples st'

      -- Over any evaluator, the family size is the number of evaluations that could have fired, one
      -- anomaly is raised for each that did, and all are adaptive ones, critical exactly beyond
      -- five deviations.
      pub evaluate_adaptive_counts :
          (samples : List (Sample F)) (st : S)
          → let ((out, tested), last) = evaluate_adaptive store metric now samples st in
            (tested ≡ count_if could_fire (outcomes samples st))
            × (length out ≡ count_if fires (outcomes samples st))
            × All IsAdaptive out
      unfolding evaluate_adaptive
      evaluate_adaptive_counts [] st = (refl, refl, tt)
      evaluate_adaptive_counts (s ∷ samples) st =
          let (o, st') = store.evaluate metric s.labels s.value now st in
          let (rest, last) = evaluate_adaptive store metric now samples st' in
          let (n, k, h) = evaluate_adaptive_counts samples st' in
          let (n', k', h') = collect-counts metric s.labels now o rest h in
          (rw (← n) n', rw (← k) k', h')
