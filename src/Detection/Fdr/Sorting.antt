-- ===== src/Detection/Fdr/Sorting.antt =====
-- The sort of the ranked anomalies: it only reorders, and it orders.
use anomaly_detection.Prelude.{
  suc, ◌≡◌, refl, Bool, List, [], ◌∷◌, inl, inr, length, All, count_if, arith, Bool-cases,
}
use anomaly_detection.Float64.{Float64, ◌≼◌, IsOrdered}
use anomaly_detection.Detection.{Anomaly}
use anomaly_detection.Detection.Fdr.{insert_ranked, sort_ranked}

module _ {F : Type 0} ⦃fl : Float64 F⦄ where
  count_if-insert_ranked :
      (q : Anomaly F × F → Bool) (x : Anomaly F × F) (ys : List (Anomaly F × F))
      → count_if q (insert_ranked x ys) ≡ count_if q (x ∷ ys)
  unfolding insert_ranked
  count_if-insert_ranked q x [] = refl
  count_if-insert_ranked q x (y ∷ ys) = ground (arith, count_if-insert_ranked q x ys)

  -- sorting keeps every ranked anomaly as often as it stands there
  pub count_if-sort_ranked :
      (q : Anomaly F × F → Bool) (xs : List (Anomaly F × F))
      → count_if q (sort_ranked xs) ≡ count_if q xs
  unfolding sort_ranked
  count_if-sort_ranked q [] = refl
  count_if-sort_ranked q (x ∷ xs) =
      ground (arith, count_if-insert_ranked q x (sort_ranked xs), count_if-sort_ranked q xs)

  length-insert_ranked :
      (x : Anomaly F × F) (ys : List (Anomaly F × F))
      → length (insert_ranked x ys) ≡ suc (length ys)
  unfolding insert_ranked
  length-insert_ranked x [] = refl
  length-insert_ranked x (y ∷ ys) = ground (arith, length-insert_ranked x ys)

  pub length-sort_ranked : (xs : List (Anomaly F × F)) → length (sort_ranked xs) ≡ length xs
  unfolding sort_ranked
  length-sort_ranked [] = refl
  length-sort_ranked (x ∷ xs) =
      ground (arith, length-insert_ranked x (sort_ranked xs), length-sort_ranked xs)

  abbrev pub AtLeast : F → List (Anomaly F × F) → Type 0
  AtLeast p = All (λ x. p ≼ x.1)

  abbrev pub AreNumbers : List (Anomaly F × F) → Type 0
  AreNumbers = All (λ x. x.1 ≼ x.1)

  -- ascending p-values
  abbrev pub IsSorted : List (Anomaly F × F) → Type 0
  IsSorted [] = Unit
  IsSorted (x ∷ xs) = AtLeast x.1 xs × IsSorted xs

  All-insert_ranked :
      (P : Anomaly F × F → Type 0) (x : Anomaly F × F) (ys : List (Anomaly F × F))
      → P x
      → All P ys
      → All P (insert_ranked x ys)
  unfolding insert_ranked
  All-insert_ranked P x [] px pys = (px, pys)
  All-insert_ranked P x (y ∷ ys) px pys = elim (Bool-cases (fl.lt y.1 x.1)) [
    | inl e ↦ rw e (pys.0, All-insert_ranked P x ys px pys.1)
    | inr e ↦ rw e (px, pys)
  ]

  pub All-sort_ranked :
      (P : Anomaly F × F → Type 0) (xs : List (Anomaly F × F)) → All P xs → All P (sort_ranked xs)
  unfolding sort_ranked
  All-sort_ranked P [] h = h
  All-sort_ranked P (x ∷ xs) h =
      All-insert_ranked P x (sort_ranked xs) h.0 (All-sort_ranked P xs h.1)

  module _ (laws : IsOrdered F) where
    AtLeast-trans : (p q : F) (xs : List (Anomaly F × F)) → p ≼ q → AtLeast q xs → AtLeast p xs
    AtLeast-trans p q [] h a = a
    AtLeast-trans p q (x ∷ xs) h a = (laws.trans p q x.1 h a.0, AtLeast-trans p q xs h a.1)

    insert_ranked-IsSorted :
        (x : Anomaly F × F) (ys : List (Anomaly F × F))
        → x.1 ≼ x.1
        → AreNumbers ys
        → IsSorted ys
        → IsSorted (insert_ranked x ys)
    unfolding insert_ranked
    insert_ranked-IsSorted x [] nx ns s = (tt, tt)
    insert_ranked-IsSorted x (y ∷ ys) nx ns s = elim (Bool-cases (fl.lt y.1 x.1)) [
      | inl e ↦
          let below : y.1 ≼ x.1 =
            ground (arith, laws.lt-eq-not-le y.1 x.1 ns.0 nx, laws.total y.1 x.1 ns.0 nx) in
          rw e (
            All-insert_ranked (λ z. y.1 ≼ z.1) x ys below s.0,
            insert_ranked-IsSorted x ys nx ns.1 s.1,
          )
      | inr e ↦
          let above : x.1 ≼ y.1 = ground (arith, laws.lt-eq-not-le y.1 x.1 ns.0 nx) in
          rw e ((above, AtLeast-trans x.1 y.1 ys above s.0), s)
    ]

    -- with no NaN among them, the p-values come out in ascending order
    pub sort_ranked-IsSorted :
        (xs : List (Anomaly F × F)) → AreNumbers xs → IsSorted (sort_ranked xs)
    unfolding sort_ranked
    sort_ranked-IsSorted [] n = tt
    sort_ranked-IsSorted (x ∷ xs) n =
        insert_ranked-IsSorted x (sort_ranked xs) n.0 (All-sort_ranked (λ z. z.1 ≼ z.1) xs n.1)
          (sort_ranked-IsSorted xs n.1)
