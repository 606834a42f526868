-- ===== src/Detection/Fdr/Bound.antt =====
-- The Benjamini-Hochberg guarantee of `FDR.Apply`.
use anomaly_detection.Prelude.{
  ℕ, zero, suc, ◌≤◌, ◌<◌, ◌≡◌, refl, sym, Bool, true, false, not, ◌⊎◌, List, [], ◌∷◌, ◌++◌, inl,
  inr, length, map, take, drop, select, count_if, count_if-append, count_if-map, All, All-append,
  arith, Bool-cases,
}
use mathlib.Core.Path.{subst}
use anomaly_detection.Float64.{Float64, ◌≼◌, IsOrdered, IsMonotone, max_int}
use anomaly_detection.Detection.{Anomaly}
use anomaly_detection.Detection.Fdr.{
  is_adaptive, rank, zscore_to_pvalue, sort_ranked, critical, threshold, correct, apply_fdr,
}
use anomaly_detection.Detection.Fdr.Sorting.{
  count_if-sort_ranked, length-sort_ranked, All-sort_ranked, sort_ranked-IsSorted,
}
use anomaly_detection.Detection.Fdr.StepUp.{threshold_largest}
use anomaly_detection.Detection.Fdr.Cutoff.{threshold_cutoff}
use anomaly_detection.Detection.Fdr.Accepted.{
  family, others, accepted_of, length-map-rank, correct-nil, correct-cons,
}
use anomaly_detection.Detection.Fdr.Apply.{
  accepted_of-Within, count_if-accepted_of, HasPvalue, HasNumber, Within, All-rank, AreNumbers-rank,
  no_adaptive, no_others,
}

module _ {ℓ} {A : Type ℓ} where
  -- a test that holds on the first k elements and on no later one holds k times
  count_if-cut :
      (q : A → Bool) (k : ℕ) (xs : List A)
      → k ≤ length xs
      → All (λ x. q x ≡ true) (take k xs)
      → All (λ x. q x ≡ false) (drop k xs)
      → count_if q xs ≡ k
  count_if-cut q zero [] le t f = refl
  count_if-cut q zero (x ∷ xs) le t f = rw f.0 (count_if-cut q zero xs (omega arith) tt f.1)
  count_if-cut q (suc k) [] le t f = absurd (omega arith)
  count_if-cut q (suc k) (x ∷ xs) le t f =
      rw t.0 (omega (arith, count_if-cut q k xs (omega arith) t.1 f))

module _ {F : Type 0} ⦃fl : Float64 F⦄ where
  count_if-HasPvalue :
      (c : F) (items : List (Anomaly F × F))
      → All HasPvalue items
      → count_if (λ x. fl.le x.1 c) items
        ≡ count_if (λ x. fl.le (zscore_to_pvalue x.0.score) c) items
  count_if-HasPvalue c [] h = refl
  count_if-HasPvalue c (x ∷ items) h = rw h.0 (ground (arith, count_if-HasPvalue c items h.1))

  -- an anomaly of another detector, or an adaptive one with a p-value of at most `c`
  abbrev pub Passes : F → Anomaly F → Type 0
  Passes c a = (is_adaptive a ≡ false) ⊎ Within c a

  All-others : (c : F) (xs : List (Anomaly F)) → All (Passes c) (others xs)
  All-others c [] = tt
  All-others c (x ∷ xs) = elim (Bool-cases (is_adaptive x)) [
    | inl e ↦ rw e (All-others c xs)
    | inr e ↦ rw e (inl e, All-others c xs)
  ]

  All-Within : (c : F) (xs : List (Anomaly F)) → All (Within c) xs → All (Passes c) xs
  All-Within c [] h = tt
  All-Within c (x ∷ xs) h = (inr h.0, All-Within c xs h.1)

  All-of_none : (c : F) (xs : List (Anomaly F)) → count_if is_adaptive xs ≡ 0 → All (Passes c) xs
  All-of_none c [] e = tt
  All-of_none c (x ∷ xs) e = elim (Bool-cases (is_adaptive x)) [
    | inl a ↦ absurd (ground arith)
    | inr a ↦ (inl a, All-of_none c xs (ground arith))
  ]

  count_if-select :
      (xs : List (Anomaly F)) → count_if is_adaptive xs ≡ length (select is_adaptive xs)
  count_if-select [] = refl
  count_if-select (x ∷ xs) = ground (arith, count_if-select xs)

  abbrev pub low : F → Anomaly F → Bool
  low c a = fl.le (zscore_to_pvalue a.score) c

  family_fits :
      (tests : ℕ) (adaptive : List (Anomaly F))
      → family tests adaptive ≤ max_int
      → length adaptive ≤ max_int
  family_fits tests adaptive fits = ground (arith, fits)

  -- What the correction promises of the accepted anomalies, by the adaptive candidates and the
  -- size m of the family: with k adaptive anomalies accepted, each has p <= (k / m) * target, and
  -- k is the number of all candidates that have.
  abbrev pub IsCorrected : ℕ → F → List (Anomaly F) → List (Anomaly F) → Type 0
  IsCorrected m target candidates accepted =
      let k = count_if is_adaptive accepted in
      let c = critical m target k in All (Passes c) accepted × (count_if (low c) candidates ≡ k)

  module _ (ordered : IsOrdered F) (monotone : IsMonotone F) (target : F)
      (pos : fl.lit 0 1 ≼ target) (finite : fl.is_finite target ≡ true) where
    count_if-low :
        (m : ℕ) (adaptive : List (Anomaly F))
        → 0 < m
        → m ≤ max_int
        → length adaptive ≤ max_int
        → All HasNumber adaptive
        → let k = threshold m target (sort_ranked (map rank adaptive)) in
          count_if (low (critical m target k)) adaptive ≡ k
    count_if-low zero adaptive lt fits few h = absurd (omega arith)
    count_if-low (suc m) adaptive lt fits few h =
        let items = sort_ranked (map rank adaptive) in
        let k = threshold (suc m) target items in
        let c = critical (suc m) target k in
        let sorted =
          sort_ranked-IsSorted ordered (map rank adaptive) (AreNumbers-rank adaptive h) in
        let (at, beyond) =
          threshold_cutoff ordered monotone m target pos finite fits items sorted
            (rw (length-sort_ranked (map rank adaptive), length-map-rank adaptive) few) in
        omega (
          arith,
          count_if-cut (λ (x : Anomaly F × F). fl.le x.1 c) k items
              (threshold_largest (suc m) target items).0 at beyond,
          count_if-HasPvalue c items
              (All-sort_ranked HasPvalue (map rank adaptive) (All-rank adaptive)),
          count_if-sort_ranked (λ (x : Anomaly F × F). low c x.0) (map rank adaptive),
          count_if-map (λ (x : Anomaly F × F). low c x.0) rank adaptive,
        )

    correct-IsCorrected :
        (anomalies : List (Anomaly F)) (tests : ℕ) (adaptive : List (Anomaly F))
        → count_if is_adaptive anomalies ≡ length adaptive
        → count_if (λ a. not (is_adaptive a)) adaptive ≡ 0
        → family tests adaptive ≤ max_int
        → All HasNumber adaptive
        → IsCorrected
            (family tests adaptive)
            target
            adaptive
            (correct target tests anomalies (others anomalies) adaptive).0
    correct-IsCorrected anomalies tests [] n none fits h =
        rw (correct-nil target tests anomalies (others anomalies))
          (All-of_none _ anomalies n, sym n)
    correct-IsCorrected anomalies tests (a ∷ more) n none fits h =
        let adaptive : List (Anomaly F) = a ∷ more in
        let m = family tests adaptive in
        let k = threshold m target (sort_ranked (map rank adaptive)) in
        let acc = others anomalies ++ accepted_of m target adaptive in
        let positive : 0 < m = ground arith in
        let few : length adaptive ≤ max_int = family_fits tests adaptive fits in
        let count : count_if is_adaptive acc ≡ k = omega (
          arith,
          count_if-append is_adaptive (others anomalies) (accepted_of m target adaptive),
          no_adaptive anomalies,
          count_if-accepted_of m target adaptive none,
        ) in
        subst (λ (out : List (Anomaly F) × ℕ). IsCorrected m target adaptive out.0)
          (sym (correct-cons target tests anomalies (others anomalies) a more))
          (subst
            (λ (n : ℕ).
              All (Passes (critical m target n)) acc
              × (count_if (low (critical m target n)) adaptive ≡ n))
            (sym count)
            (
              All-append (Passes (critical m target k)) (others anomalies)
                  (accepted_of m target adaptive) (All-others _ anomalies)
                  (All-Within _ _ (
                    accepted_of-Within ordered monotone target pos finite m adaptive positive fits
                      few h)),
              count_if-low m adaptive positive fits few h,
            ))

    -- With a finite target from 0 to below 1, no NaN among the p-values and a family that an int
    -- counts, the accepted adaptive anomalies are the
    -- step-up set of Benjamini and Hochberg over the full family: if k of them are accepted, each
    -- has p <= (k / m) * target, and every candidate with such a p-value is among the k.
    pub apply_fdr-IsCorrected :
        (anomalies : List (Anomaly F)) (tests : ℕ)
        → fl.le (fl.lit 1 1) target ≡ false
        → family tests (select is_adaptive anomalies) ≤ max_int
        → All HasNumber (select is_adaptive anomalies)
        → let candidates = select is_adaptive anomalies in
          IsCorrected
            (family tests candidates)
            target
            candidates
            (apply_fdr target anomalies tests).0
    unfolding apply_fdr
    apply_fdr-IsCorrected anomalies tests on fits h = rw on (
        correct-IsCorrected anomalies tests (select is_adaptive anomalies)
          (count_if-select anomalies) (no_others anomalies) fits h)
