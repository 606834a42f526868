-- ===== src/Detection/Fdr/Apply.antt =====
-- `FDR.Apply` as a whole: what it keeps, what it counts, and the bound on what it accepts.
use anomaly_detection.Prelude.{
  ℕ, zero, suc, ◌+◌, ◌≤◌, ◌<◌, ◌≡◌, refl, Bool, true, not, ◌&&◌, List, [], ◌∷◌, inl, inr, length,
  length-append, map, take, select, count_if, count_if-append, All, arith, Bool-cases,
}
use anomaly_detection.Float64.{Float64, ◌≼◌, IsOrdered, IsMonotone, max_int}
use anomaly_detection.Detection.{Anomaly}
use anomaly_detection.Detection.Fdr.{
  is_adaptive, rank, zscore_to_pvalue, sort_ranked, critical, threshold, correct, apply_fdr,
}
use anomaly_detection.Detection.Fdr.Sorting.{
  All-sort_ranked, length-sort_ranked, AreNumbers, sort_ranked-IsSorted,
}
use anomaly_detection.Detection.Fdr.Cutoff.{threshold_cutoff}
use anomaly_detection.Detection.Fdr.Accepted.{
  family, accepted_of, others, correct-nil, correct-cons, count_if-split, length-split,
  count_if-accepted_of-le, length-accepted_of, length-map-rank, no_other, but_adaptive,
}

module _ {F : Type 0} ⦃fl : Float64 F⦄ where
  module _ (target : F) (anomalies : List (Anomaly F)) (tests : ℕ) where
    abbrev IsSplit : List (Anomaly F) → Type 0
    IsSplit adaptive =
        (q : Anomaly F → Bool)
        → count_if q adaptive + count_if q (others anomalies) ≡ count_if q anomalies

    correct-length :
        (adaptive : List (Anomaly F))
        → length adaptive + length (others anomalies) ≡ length anomalies
        → length (correct target tests anomalies (others anomalies) adaptive).0
            + (correct target tests anomalies (others anomalies) adaptive).1
          ≡ length anomalies
    correct-length [] e = rw (correct-nil target tests anomalies (others anomalies)) (omega arith)
    correct-length (a ∷ more) e =
        let m = family tests (a ∷ more) in
        rw (correct-cons target tests anomalies (others anomalies) a more) (
          omega (
            arith,
            length-append {0} (others anomalies) (accepted_of m target (a ∷ more)),
            (length-accepted_of m target (a ∷ more)).1,
          ))

    correct-le :
        (adaptive : List (Anomaly F)) (q : Anomaly F → Bool)
        → IsSplit adaptive
        → count_if q (correct target tests anomalies (others anomalies) adaptive).0
          ≤ count_if q anomalies
    correct-le [] q e = rw (correct-nil target tests anomalies (others anomalies)) (omega arith)
    correct-le (a ∷ more) q e =
        let m = family tests (a ∷ more) in
        rw (correct-cons target tests anomalies (others anomalies) a more) (
          omega (
            arith,
            e q,
            count_if-append q (others anomalies) (accepted_of m target (a ∷ more)),
            count_if-accepted_of-le q m target (a ∷ more),
          ))

    correct-others :
        (adaptive : List (Anomaly F)) (q : Anomaly F → Bool)
        → IsSplit adaptive
        → count_if (but_adaptive q) adaptive ≡ 0
        → count_if (but_adaptive q) (correct target tests anomalies (others anomalies) adaptive).0
          ≡ count_if (but_adaptive q) anomalies
    correct-others [] q e z = rw (correct-nil target tests anomalies (others anomalies)) refl
    correct-others (a ∷ more) q e z =
        let m = family tests (a ∷ more) in
        rw (correct-cons target tests anomalies (others anomalies) a more) (
          omega (
            arith,
            e (but_adaptive q),
            count_if-append (but_adaptive q) (others anomalies) (accepted_of m target (a ∷ more)),
            count_if-accepted_of-le (but_adaptive q) m target (a ∷ more),
          ))

  -- `Apply` accepts no anomaly more often than it was given, keeps every anomaly of another
  -- detector exactly as often as it was given, and counts as rejected exactly what is missing.
  pub apply_fdr_accounts :
      (target : F) (anomalies : List (Anomaly F)) (tests : ℕ)
      → let (accepted, rejected) = apply_fdr target anomalies tests in
        (length accepted + rejected ≡ length anomalies)
        × ((q : Anomaly F → Bool) → count_if q accepted ≤ count_if q anomalies)
        × ((q : Anomaly F → Bool)
            → count_if (λ a. q a && not (is_adaptive a)) accepted
              ≡ count_if (λ a. q a && not (is_adaptive a)) anomalies)
  unfolding apply_fdr
  apply_fdr_accounts target anomalies tests = elim (Bool-cases (fl.le (fl.lit 1 1) target)) [
    | inl off ↦ rw off (omega arith, λ q. omega arith, λ q. refl)
    | inr on ↦
        let adaptive = select is_adaptive anomalies in
        let split = λ (q : Anomaly F → Bool). count_if-split q is_adaptive anomalies in
        rw on (
          correct-length target anomalies tests adaptive (length-split is_adaptive anomalies),
          λ q. correct-le target anomalies tests adaptive q split,
          λ q. correct-others target anomalies tests adaptive q split (no_other q anomalies),
        )
  ]

  count_if-not :
      (q : Anomaly F → Bool) (xs : List (Anomaly F))
      → count_if q xs + count_if (λ a. not (q a)) xs ≡ length xs
  count_if-not q [] = omega arith
  count_if-not q (x ∷ xs) = ground (arith, count_if-not q xs)

  pub no_adaptive : (xs : List (Anomaly F)) → count_if is_adaptive (others xs) ≡ 0
  no_adaptive [] = refl
  no_adaptive (x ∷ xs) = ground (arith, no_adaptive xs)

  pub no_others :
      (xs : List (Anomaly F)) → count_if (λ a. not (is_adaptive a)) (select is_adaptive xs) ≡ 0
  no_others [] = refl
  no_others (x ∷ xs) = ground (arith, no_others xs)

  -- the accepted ranks all hold adaptive anomalies, if all candidates are adaptive
  pub count_if-accepted_of :
      (m : ℕ) (target : F) (adaptive : List (Anomaly F))
      → count_if (λ a. not (is_adaptive a)) adaptive ≡ 0
      → count_if is_adaptive (accepted_of m target adaptive)
        ≡ threshold m target (sort_ranked (map rank adaptive))
  count_if-accepted_of m target adaptive e = omega (
    arith,
    count_if-not is_adaptive (accepted_of m target adaptive),
    count_if-accepted_of-le (λ a. not (is_adaptive a)) m target adaptive,
    (length-accepted_of m target adaptive).0,
  )

  abbrev pub HasPvalue : Anomaly F × F → Type 0
  HasPvalue x = x.1 ≡ zscore_to_pvalue x.0.score

  pub All-rank : (xs : List (Anomaly F)) → All HasPvalue (map rank xs)
  All-rank [] = tt
  All-rank (x ∷ xs) = (refl, All-rank xs)

  abbrev pub HasNumber : Anomaly F → Type 0
  HasNumber a = zscore_to_pvalue a.score ≼ zscore_to_pvalue a.score

  pub AreNumbers-rank : (xs : List (Anomaly F)) → All HasNumber xs → AreNumbers (map rank xs)
  AreNumbers-rank [] h = tt
  AreNumbers-rank (x ∷ xs) h = (h.0, AreNumbers-rank xs h.1)

  abbrev pub Within : F → Anomaly F → Type 0
  Within c a = zscore_to_pvalue a.score ≼ c

  All-unrank :
      (c : F) (k : ℕ) (items : List (Anomaly F × F))
      → All HasPvalue items
      → All (λ x. x.1 ≼ c) (take k items)
      → All (Within c) (map (λ x. x.0) (take k items))
  All-unrank c zero items h b = tt
  All-unrank c (suc k) [] h b = tt
  All-unrank c (suc k) (x ∷ items) h b = (rw (← h.0) b.0, All-unrank c k items h.1 b.1)

  module _ (ordered : IsOrdered F) (monotone : IsMonotone F) (target : F)
      (pos : fl.lit 0 1 ≼ target) (finite : fl.is_finite target ≡ true) where
    pub accepted_of-Within :
        (m : ℕ) (adaptive : List (Anomaly F))
        → 0 < m
        → m ≤ max_int
        → length adaptive ≤ max_int
        → All HasNumber adaptive
        → All
            (Within (critical m target (threshold m target (sort_ranked (map rank adaptive)))))
            (accepted_of m target adaptive)
    unfolding accepted_of
    accepted_of-Within zero adaptive lt fits few h = absurd (omega arith)
    accepted_of-Within (suc m) adaptive lt fits few h =
        let items = sort_ranked (map rank adaptive) in
        let sorted =
          sort_ranked-IsSorted ordered (map rank adaptive) (AreNumbers-rank adaptive h) in
        All-unrank _ (threshold (suc m) target items) items
          (All-sort_ranked HasPvalue (map rank adaptive) (All-rank adaptive))
          (threshold_cutoff ordered monotone m target pos finite fits items sorted
            (rw (length-sort_ranked (map rank adaptive), length-map-rank adaptive) few)).0
