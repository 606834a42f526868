-- ===== src/Detection/Fdr/StepUp.antt =====
-- The rank that the scan finds is the largest that passes its Benjamini-Hochberg bound.
use anomaly_detection.Prelude.{
  ℕ, zero, suc, ◌+◌, ◌≤◌, ◌<◌, ◌≡◌, refl, Bool, true, false, List, [], ◌∷◌, ◌⊎◌, inl, inr, length,
  arith, Bool-cases,
}
use anomaly_detection.Float64.{Float64}
use anomaly_detection.Detection.{Anomaly}
use anomaly_detection.Detection.Fdr.{critical, scan, threshold}

module _ {F : Type 0} ⦃fl : Float64 F⦄ (m : ℕ) (target : F) where
  -- p(j) <= (j / m) * target, for the item of rank k + j of a list that starts behind rank k
  abbrev pub passes_from : ℕ → List (Anomaly F × F) → ℕ → Bool
  passes_from k [] j = false
  passes_from k (x ∷ xs) zero = false
  passes_from k (x ∷ xs) (suc zero) = fl.le x.1 (critical m target (suc k))
  passes_from k (x ∷ xs) (suc (suc j)) = passes_from (suc k) xs (suc j)

  -- either no rank passes and `best` stays, or the rank found passes and no later one does
  abbrev Found : ℕ → ℕ → List (Anomaly F × F) → ℕ → Type 0
  Found k best xs t =
      ((t ≡ best) × ((j : ℕ) → passes_from k xs j ≡ false))
      ⊎ ((i : ℕ) × (t ≡ k + i)
          × (i ≤ length xs)
          × (passes_from k xs i ≡ true)
          × ((j : ℕ) → i < j → passes_from k xs j ≡ false))

  passes_from-zero : (k : ℕ) (xs : List (Anomaly F × F)) → passes_from k xs 0 ≡ false
  passes_from-zero k [] = refl
  passes_from-zero k (x ∷ xs) = refl

  -- what is known of the ranks of the tail, told of the ranks of the whole list
  later_passes :
      (k i : ℕ) (x : Anomaly F × F) (xs : List (Anomaly F × F))
      → passes_from (suc k) xs i ≡ true
      → passes_from k (x ∷ xs) (suc i) ≡ true
  later_passes k zero x xs h = cc (passes_from-zero (suc k) xs)
  later_passes k (suc i) x xs h = h

  later_fails :
      (k i : ℕ) (x : Anomaly F × F) (xs : List (Anomaly F × F))
      → ((j : ℕ) → i < j → passes_from (suc k) xs j ≡ false)
      → (j : ℕ) → suc i < j
      → passes_from k (x ∷ xs) j ≡ false
  later_fails k i x xs h (suc (suc j)) lt = h (suc j) (omega arith)
  later_fails k i x xs h zero lt = absurd (omega arith)
  later_fails k i x xs h (suc zero) lt = absurd (omega arith)

  none_later :
      (k : ℕ) (x : Anomaly F × F) (xs : List (Anomaly F × F))
      → ((j : ℕ) → passes_from (suc k) xs j ≡ false)
      → (j : ℕ) → 1 < j
      → passes_from k (x ∷ xs) j ≡ false
  none_later k x xs h j lt = later_fails k 0 x xs (λ i _. h i) j lt

  none_passes :
      (k : ℕ) (x : Anomaly F × F) (xs : List (Anomaly F × F))
      → fl.le x.1 (critical m target (suc k)) ≡ false
      → ((j : ℕ) → passes_from (suc k) xs j ≡ false)
      → (j : ℕ) → passes_from k (x ∷ xs) j ≡ false
  none_passes k x xs e h zero = refl
  none_passes k x xs e h (suc zero) = e
  none_passes k x xs e h (suc (suc j)) = h (suc j)

  scan-Found : (k best : ℕ) (xs : List (Anomaly F × F)) → Found k best xs (scan m target k best xs)
  unfolding scan
  scan-Found k best [] = inl (refl, λ j. refl)
  scan-Found k best (x ∷ xs) = elim (Bool-cases (fl.le x.1 (critical m target (suc k)))) [
    | inl e ↦ rw e (first_passes e (scan-Found (suc k) (suc k) xs))
    | inr e ↦ rw e (first_fails e (scan-Found (suc k) best xs))
  ]
    where
      first_passes :
          {t : ℕ}
          → fl.le x.1 (critical m target (suc k)) ≡ true
          → Found (suc k) (suc k) xs t
          → Found k best (x ∷ xs) t
      first_passes e (inl (same, h)) = inr (1, omega arith, omega arith, e, none_later k x xs h)
      first_passes e (inr (i, at, within, p, h)) =
          inr (suc i, omega arith, omega arith, later_passes k i x xs p, later_fails k i x xs h)

      first_fails :
          {t : ℕ}
          → fl.le x.1 (critical m target (suc k)) ≡ false
          → Found (suc k) best xs t
          → Found k best (x ∷ xs) t
      first_fails e (inl (same, h)) = inl (same, none_passes k x xs e h)
      first_fails e (inr (i, at, within, p, h)) =
          inr (suc i, omega arith, omega arith, later_passes k i x xs p, later_fails k i x xs h)

  abbrev pub passes : List (Anomaly F × F) → ℕ → Bool
  passes = passes_from 0

  -- The rank that the scan returns is at most the number of items, passes its own bound
  -- p(k) <= (k / m) * target unless it is 0, and no larger rank passes its bound.
  pub threshold_largest :
      (items : List (Anomaly F × F))
      → let t = threshold m target items in
        (t ≤ length items)
        × (0 < t → passes items t ≡ true)
        × ((j : ℕ) → t < j → passes items j ≡ false)
  unfolding threshold
  threshold_largest items = elim (scan-Found 0 0 items) [
    | inl (zero_rank, h) ↦ (omega arith, λ p. absurd (omega arith), λ j _. h j)
    | inr (i, at, within, p, h) ↦
        let e : threshold m target items ≡ i = omega arith in
        (omega arith, λ _. rw e p, λ j lt. h j (omega arith))
  ]
