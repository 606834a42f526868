-- ===== src/Detection/Fdr.antt =====
-- controller/internal/detection/fdr.go: Benjamini-Hochberg over the adaptive anomalies of a cycle.
-- `sort.Slice` is modelled by a stable insertion sort; `Cutoff` shows that which anomalies are
-- accepted does not depend on how it orders equal p-values.
pub mod Sorting
pub mod StepUp
pub mod Cutoff
pub mod Accepted
pub mod Apply
pub mod Bound
use anomaly_detection.Prelude.{
  ℕ, zero, suc, ◌-◌, ◌^◌, Bool, not, ◌||◌, List, [], ◌∷◌, ◌++◌, ◌==◌, length, map, take, select,
  ltb, if◌then◌else◌,
}
use anomaly_detection.Float64.{Float64}
use anomaly_detection.Detection.{Anomaly}

module _ {F : Type 0} ⦃fl : Float64 F⦄ where
  -- `NewFDR`
  unfoldable pub new_fdr : F → F
  new_fdr target =
      if fl.le target (fl.lit 0 1) || fl.lt (fl.lit 1 1) target then fl.lit 5 100 else target

  -- math.Sqrt2
  abbrev pub sqrt_two : F
  sqrt_two = fl.lit 141421356237309504880168872420969807856967187537694 (10 ^ 50)

  unfoldable pub zscore_to_pvalue : F → F
  zscore_to_pvalue z =
      let p = fl.erfc (fl.div (fl.abs z) sqrt_two) in
      if fl.lt p (fl.lit 1 (10 ^ 300)) then fl.lit 1 (10 ^ 300) else p

  abbrev pub is_adaptive : Anomaly F → Bool
  is_adaptive a = a.detector == "adaptive"

  -- the struct `ranked`: an anomaly with its p-value
  abbrev pub rank : Anomaly F → Anomaly F × F
  rank a = (a, zscore_to_pvalue a.score)

  -- sort.Slice by p-value
  unfoldable pub insert_ranked : Anomaly F × F → List (Anomaly F × F) → List (Anomaly F × F)
  insert_ranked x [] = x ∷ []
  insert_ranked x (y ∷ ys) = if fl.lt y.1 x.1 then y ∷ insert_ranked x ys else x ∷ y ∷ ys

  unfoldable pub sort_ranked : List (Anomaly F × F) → List (Anomaly F × F)
  unfolding insert_ranked
  sort_ranked [] = []
  sort_ranked (x ∷ xs) = insert_ranked x (sort_ranked xs)

  -- (float64(k) / float64(m)) * f.Target
  abbrev pub critical : ℕ → F → ℕ → F
  critical m target k = fl.mul (fl.div (fl.lit k 1) (fl.lit m 1)) target

  -- the scan for the largest rank that passes, from rank k + 1 on
  unfoldable pub scan : ℕ → F → ℕ → ℕ → List (Anomaly F × F) → ℕ
  scan m target k best [] = best
  scan m target k best (x ∷ xs) =
      scan m target (suc k) (if fl.le x.1 (critical m target (suc k)) then suc k else best) xs

  unfoldable pub threshold : ℕ → F → List (Anomaly F × F) → ℕ
  unfolding scan
  threshold m target items = scan m target 0 0 items

  -- `FDR.Apply` behind its first return, by the adaptive anomalies, which stand last: with none of
  -- them everything passes
  unfoldable pub correct :
      F → ℕ → List (Anomaly F) → List (Anomaly F) → List (Anomaly F) → List (Anomaly F) × ℕ
  unfolding sort_ranked threshold
  correct target total_tests anomalies passthrough [] = (anomalies, 0)
  correct target total_tests anomalies passthrough (a ∷ more) =
      let n = length (a ∷ more) in
      let m = if ltb total_tests n then n else total_tests in
      let items = sort_ranked (map rank (a ∷ more)) in
      let k = threshold m target items in
      (passthrough ++ map (λ x. x.0) (take k items), length items - k)

  -- `FDR.Apply`
  unfoldable pub apply_fdr : F → List (Anomaly F) → ℕ → List (Anomaly F) × ℕ
  unfolding correct
  apply_fdr target anomalies total_tests =
      let adaptive = select is_adaptive anomalies in
      let passthrough = select (λ a. not (is_adaptive a)) anomalies in
      if fl.le (fl.lit 1 1) target
      then (anomalies, 0)
      else correct target total_tests anomalies passthrough adaptive
