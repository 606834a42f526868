-- ===== src/Detection/Fdr/Accepted.antt =====
-- The anomalies that `FDR.Apply` accepts among the adaptive ones, and how many they are.
use anomaly_detection.Prelude.{
  ℕ, zero, suc, ◌+◌, ◌-◌, ◌≤◌, ◌≡◌, refl, Bool, not, ◌&&◌, List, [], ◌∷◌, ◌++◌, length, map, take,
  select, count_if, count_if-map, ltb, arith, if◌then◌else◌,
}
use anomaly_detection.Float64.{Float64}
use anomaly_detection.Detection.{Anomaly}
use anomaly_detection.Detection.Fdr.{is_adaptive, rank, sort_ranked, threshold, correct}
use anomaly_detection.Detection.Fdr.Sorting.{count_if-sort_ranked, length-sort_ranked}
use anomaly_detection.Detection.Fdr.StepUp.{threshold_largest}

module _ {ℓ} {A : Type ℓ} where
  pub count_if-take : (q : A → Bool) (n : ℕ) (xs : List A) → count_if q (take n xs) ≤ count_if q xs
  count_if-take q zero xs = omega arith
  count_if-take q (suc n) [] = omega arith
  count_if-take q (suc n) (x ∷ xs) = ground (arith, count_if-take q n xs)

  -- the two selections by a test split a list
  pub count_if-split :
      (q p : A → Bool) (xs : List A)
      → count_if q (select p xs) + count_if q (select (λ a. not (p a)) xs) ≡ count_if q xs
  count_if-split q p [] = omega arith
  count_if-split q p (x ∷ xs) = ground (arith, count_if-split q p xs)

  pub length-split :
      (p : A → Bool) (xs : List A)
      → length (select p xs) + length (select (λ a. not (p a)) xs) ≡ length xs
  length-split p [] = omega arith
  length-split p (x ∷ xs) = ground (arith, length-split p xs)

module _ {F : Type 0} ⦃fl : Float64 F⦄ where
  abbrev pub family : ℕ → List (Anomaly F) → ℕ
  family tests adaptive = if ltb tests (length adaptive) then length adaptive else tests

  -- the anomalies behind the accepted ranks
  unfoldable pub accepted_of : ℕ → F → List (Anomaly F) → List (Anomaly F)
  accepted_of m target adaptive =
      let items = sort_ranked (map rank adaptive) in
      map (λ x. x.0) (take (threshold m target items) items)

  pub count_if-accepted_of-le :
      (q : Anomaly F → Bool) (m : ℕ) (target : F) (adaptive : List (Anomaly F))
      → count_if q (accepted_of m target adaptive) ≤ count_if q adaptive
  unfolding accepted_of
  count_if-accepted_of-le q m target adaptive =
      let items = sort_ranked (map rank adaptive) in
      let k = threshold m target items in
      omega (
        arith,
        count_if-map q (λ (x : Anomaly F × F). x.0) (take k items),
        count_if-take (λ (x : Anomaly F × F). q x.0) k items,
        count_if-sort_ranked (λ (x : Anomaly F × F). q x.0) (map rank adaptive),
        count_if-map (λ (x : Anomaly F × F). q x.0) rank adaptive,
      )

  pub length-map-take :
      (k : ℕ) (items : List (Anomaly F × F))
      → k ≤ length items
      → length (map (λ x. x.0) (take k items)) ≡ k
  length-map-take zero items h = refl
  length-map-take (suc k) [] h = absurd (omega arith)
  length-map-take (suc k) (x ∷ items) h = omega (arith, length-map-take k items (omega arith))

  pub length-map-rank : (xs : List (Anomaly F)) → length (map rank xs) ≡ length xs
  length-map-rank [] = refl
  length-map-rank (x ∷ xs) = omega (arith, length-map-rank xs)

  -- as many anomalies are accepted as the threshold says, and the rest is counted as rejected
  pub length-accepted_of :
      (m : ℕ) (target : F) (adaptive : List (Anomaly F))
      → let items = sort_ranked (map rank adaptive) in
        (length (accepted_of m target adaptive) ≡ threshold m target items)
        × (length (accepted_of m target adaptive) + (length items - threshold m target items)
            ≡ length adaptive)
  unfolding accepted_of
  length-accepted_of m target adaptive =
      let items = sort_ranked (map rank adaptive) in
      let within = (threshold_largest m target items).0 in
      let all = length-map-take (threshold m target items) items within in
      (
        all,
        omega
            (arith, all, within, length-sort_ranked (map rank adaptive), length-map-rank adaptive),
      )

  pub no_other :
      (q : Anomaly F → Bool) (xs : List (Anomaly F))
      → count_if (λ a. q a && not (is_adaptive a)) (select is_adaptive xs) ≡ 0
  no_other q [] = refl
  no_other q (x ∷ xs) = ground (arith, no_other q xs)

  abbrev pub others : List (Anomaly F) → List (Anomaly F)
  others = select (λ a. not (is_adaptive a))

  abbrev pub but_adaptive : (Anomaly F → Bool) → Anomaly F → Bool
  but_adaptive q a = q a && not (is_adaptive a)

  pub correct-nil :
      (target : F) (tests : ℕ) (anomalies passthrough : List (Anomaly F))
      → correct target tests anomalies passthrough [] ≡ (anomalies, 0)
  unfolding correct
  correct-nil target tests anomalies passthrough = refl

  pub correct-cons :
      (target : F) (tests : ℕ) (anomalies passthrough : List (Anomaly F)) (a : Anomaly F)
      (more : List (Anomaly F))
      → let m = family tests (a ∷ more) in
        let items = sort_ranked (map rank (a ∷ more)) in
        correct target tests anomalies passthrough (a ∷ more)
        ≡ (passthrough ++ accepted_of m target (a ∷ more), length items - threshold m target items)
  unfolding correct accepted_of
  correct-cons target tests anomalies passthrough a more = refl
