-- ===== src/Detection/Fdr/Cutoff.antt =====
-- Which ranks the scan accepts, told by p-values alone.
use anomaly_detection.Prelude.{
  ℕ, zero, suc, ◌+◌, ◌≤◌, ◌<◌, ◌≡◌, true, false, List, [], ◌∷◌, inl, inr, length, take, drop, All,
  arith, Bool-cases,
}
use anomaly_detection.Float64.{Float64, ◌≼◌, IsOrdered, IsMonotone, max_int}
use anomaly_detection.Detection.{Anomaly}
use anomaly_detection.Detection.Fdr.{critical, threshold}
use anomaly_detection.Detection.Fdr.Sorting.{IsSorted}
use anomaly_detection.Detection.Fdr.StepUp.{passes_from, passes, threshold_largest}

module _ {F : Type 0} ⦃fl : Float64 F⦄ (ordered : IsOrdered F) (monotone : IsMonotone F) where
  critical_mono :
      (m n : ℕ) (target : F) (j k : ℕ)
      → n ≤ m
      → j ≤ k
      → k ≤ max_int
      → suc m ≤ max_int
      → fl.is_finite target ≡ true
      → fl.lit 0 1 ≼ target
      → critical (suc m) target j ≼ critical (suc n) target k
  critical_mono m n target j k hm hj few fewer finite pos =
      monotone.product_mono _ _ target (monotone.quotient_finite j m (omega arith) fewer)
        (monotone.quotient_finite k n few (omega arith)) finite
        (monotone.quotient_mono j k m n hj (omega arith) few fewer) pos

  accepted_below :
      (m : ℕ) (target : F) (k n t : ℕ) (xs : List (Anomaly F × F))
      → n ≡ k + t
      → IsSorted xs
      → passes_from m target k xs t ≡ true
      → All (λ x. x.1 ≼ critical m target n) (take t xs)
  accepted_below m target k n zero xs e s p = tt
  accepted_below m target k n (suc t) [] e s p = tt
  accepted_below m target k n (suc zero) (x ∷ xs) e s p =
      let e' : n ≡ suc k = omega arith in (rw e' p, tt)
  accepted_below m target k n (suc (suc t)) (x ∷ []) e s p = cc
  accepted_below m target k n (suc (suc t)) (x ∷ y ∷ ys) e s p =
      let rest = accepted_below m target (suc k) n (suc t) (y ∷ ys) (omega arith) s.1 p in
      (ordered.trans x.1 y.1 _ s.0.0 rest.0, rest)

  module _ (m : ℕ) (target : F) (pos : fl.lit 0 1 ≼ target) (finite : fl.is_finite target ≡ true)
      (family_fits : suc m ≤ max_int) where
    not_below :
        (p : F) (j k : ℕ)
        → j ≤ k
        → k ≤ max_int
        → fl.le p (critical (suc m) target k) ≡ false
        → fl.le p (critical (suc m) target j) ≡ false
    not_below p j k h few e = elim (Bool-cases (fl.le p (critical (suc m) target j))) [
      | inl low ↦ cc (
          ordered.trans p _ _ low
            (critical_mono m m target j k (omega arith) h few family_fits finite pos))
      | inr high ↦ high
    ]

    rejected_above :
        (k n t : ℕ) (xs : List (Anomaly F × F))
        → n ≤ k + t
        → k + length xs ≤ max_int
        → ((j : ℕ) → t < j → passes_from (suc m) target k xs j ≡ false)
        → All (λ x. fl.le x.1 (critical (suc m) target n) ≡ false) (drop t xs)
    rejected_above k n zero [] e few h = tt
    rejected_above k n (suc t) [] e few h = tt
    rejected_above k n zero (x ∷ xs) e few h = (
      not_below x.1 n (suc k) (omega arith) (omega arith) (h 1 (omega arith)),
      rejected_above (suc k) n zero xs (omega arith) (omega arith) (later k xs zero x h),
    )
      where
        later :
            (k : ℕ) (xs : List (Anomaly F × F)) (t : ℕ) (x : Anomaly F × F)
            → ((j : ℕ) → t < j → passes_from (suc m) target k (x ∷ xs) j ≡ false)
            → (j : ℕ) → t < j
            → passes_from (suc m) target (suc k) xs j ≡ false
        later k xs t x h zero lt = absurd (omega arith)
        later k xs t x h (suc j) lt = h (suc (suc j)) (omega arith)
    rejected_above k n (suc t) (x ∷ xs) e few h =
        rejected_above (suc k) n t xs (omega arith) (omega arith) later
      where
        later : (j : ℕ) → t < j → passes_from (suc m) target (suc k) xs j ≡ false
        later zero lt = absurd (omega arith)
        later (suc j) lt = h (suc (suc j)) (omega arith)

    -- In ascending order and with a target that is not negative, the ranks up to the threshold k
    -- have p-values of at most (k / m) * target and all others have larger ones: the test on the
    -- p-value decides, so equal p-values are accepted or rejected together.
    pub threshold_cutoff :
        (items : List (Anomaly F × F))
        → IsSorted items
        → length items ≤ max_int
        → let k = threshold (suc m) target items in
          All (λ x. x.1 ≼ critical (suc m) target k) (take k items)
          × All (λ x. fl.le x.1 (critical (suc m) target k) ≡ false) (drop k items)
    threshold_cutoff items s few =
        let k = threshold (suc m) target items in
        let (within, at, beyond) = threshold_largest (suc m) target items in
        (below k items s at, rejected_above 0 k k items (omega arith) (omega arith) beyond)
      where
        below :
            (k : ℕ) (items : List (Anomaly F × F))
            → IsSorted items
            → (0 < k → passes (suc m) target items k ≡ true)
            → All (λ x. x.1 ≼ critical (suc m) target k) (take k items)
        below zero items s at = tt
        below (suc k) items s at =
            accepted_below (suc m) target 0 (suc k) (suc k) items (omega arith) s (at (omega arith))

  passes_mono :
      (m n : ℕ) (target : F) (k j : ℕ) (xs : List (Anomaly F × F))
      → n ≤ m
      → k + length xs ≤ max_int
      → suc m ≤ max_int
      → fl.is_finite target ≡ true
      → fl.lit 0 1 ≼ target
      → passes_from (suc m) target k xs j ≡ true
      → passes_from (suc n) target k xs j ≡ true
  passes_mono m n target k j [] h few fewer finite pos p = p
  passes_mono m n target k zero (x ∷ xs) h few fewer finite pos p = p
  passes_mono m n target k (suc zero) (x ∷ xs) h few fewer finite pos p =
      ordered.trans x.1 _ _ p
        (critical_mono m n target (suc k) (suc k) h (omega arith) (omega arith) fewer finite pos)
  passes_mono m n target k (suc (suc j)) (x ∷ xs) h few fewer finite pos p =
      passes_mono m n target (suc k) (suc j) xs h (omega arith) fewer finite pos p

  -- With a finite target that is not negative and counts that an int holds, a larger family of tests
  -- never accepts more of the same items: the correction over the full family is at least as strict
  -- as the one over the fired anomalies alone.
  pub threshold_antitone :
      (m n : ℕ) (target : F) (items : List (Anomaly F × F))
      → n ≤ m
      → length items ≤ max_int
      → suc m ≤ max_int
      → fl.is_finite target ≡ true
      → fl.lit 0 1 ≼ target
      → threshold (suc m) target items ≤ threshold (suc n) target items
  threshold_antitone m n target items h few fewer finite pos =
      let (_, at, _) = threshold_largest (suc m) target items in
      let (_, _, beyond) = threshold_largest (suc n) target items in
      compare_ranks (threshold (suc m) target items) (threshold (suc n) target items) at beyond
    where
      compare_ranks :
          (s t : ℕ)
          → (0 < s → passes (suc m) target items s ≡ true)
          → ((j : ℕ) → t < j → passes (suc n) target items j ≡ false)
          → s ≤ t
      compare_ranks s t at beyond = elim (native.Mathlib.Decide.dec_le s t) [
        | yes le ↦ le
        | no gt ↦ cc (
          passes_mono m n target 0 s items h (omega arith) fewer finite pos (at (omega arith)),
          beyond s (omega arith),
        )
      ]
