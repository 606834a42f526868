-- ===== src/Replay/Percentile/Bounds.antt =====
-- controller/internal/replay/metrics.go: what `p95Window` holds, and that its percentile is read
-- within the bounds.
use anomaly_detection.Prelude.{
  ℕ, zero, suc, ◌+◌, ◌-◌, ◌≤◌, ◌<◌, ◌≡◌, refl, ap, ◌∙◌, some, List, [], ◌∷◌, length, drop, arith,
}
use anomaly_detection.Float64.{Float64}
use anomaly_detection.Replay.Percentile.{
  P95Window, replicate, add_values, held_values, new_p95_window, p95_index, p95_of, p95,
}
use anomaly_detection.Prelude.{sort_by, total, total-sort_by}
use anomaly_detection.Replay.Percentile.{not_after}
use anomaly_detection.Replay.Percentile.Cuts.{get_at_found}
use anomaly_detection.Replay.Percentile.Sliding.{contents, add_values-slide_all, slide_all-last_of}

module _ {ℓ} {A : Type ℓ} where
  length-replicate : (n : ℕ) (x : A) → length (replicate n x) ≡ n
  length-replicate zero x = refl
  length-replicate (suc n) x = ap suc (length-replicate n x)

  length-total : (xs : List A) → length xs ≡ total (λ x. 1) xs
  length-total [] = refl
  length-total (x ∷ xs) = omega (arith, length-total xs)

module _ {F : Type 0} ⦃fl : Float64 F⦄ where
  p95_of_total :
      (trunc : F → ℕ)
      → ((k : ℕ) → trunc (fl.mul (fl.lit k 1) (fl.lit 95 100)) ≤ k)
      → (xs : List F) → (x : F) × (p95_of trunc xs ≡ some x)
  unfolding p95_of
  p95_of_total trunc bound [] = (fl.lit 0 1, refl)
  p95_of_total trunc bound (x ∷ xs) =
      let sorted = sort_by not_after (x ∷ xs) in
      get_at_found (p95_index trunc (length (x ∷ xs))) sorted (
        omega (
          arith,
          bound (length (x ∷ xs) - 1),
          length-total sorted,
          length-total (x ∷ xs),
          total-sort_by not_after (λ y. 1) (x ∷ xs),
        ))

  -- A window of a positive size takes any values without an access out of range and then holds
  -- the last ones, as many as its size, the oldest first from its position on; if the index of the
  -- percentile, 95 % of the largest index rounded towards zero, is no larger than that index, the
  -- percentile is read within the bounds.
  pub p95_window_lem :
      (trunc : F → ℕ) (size : ℕ) (values : List F)
      → ((k : ℕ) → trunc (fl.mul (fl.lit k 1) (fl.lit 95 100)) ≤ k)
      → 0 < size
      → (w : P95Window F) × (x : F) × (add_values (new_p95_window size) values ≡ some w)
        × (contents w ≡ drop (length values - size) values)
        × (p95 trunc w ≡ some x)
  unfolding new_p95_window p95
  p95_window_lem trunc size values bound positive =
      let start = new_p95_window size in
      let (w, run, ring, same) =
        add_values-slide_all size start values (length-replicate size (fl.lit 0 1), positive) in
      let (x, read) = p95_of_total trunc bound (held_values w) in
      let count : 0 + length values ≡ length values = omega arith in
      let last =
        slide_all-last_of size [] values positive (omega arith)
        ∙ ap (λ n. drop (n - size) values) count in
      (w, x, run, same ∙ last, read)
