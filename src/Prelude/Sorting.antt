-- ===== src/Prelude/Sorting.antt =====
-- Insertion sort by a test, which stands for sort.Slice: `before x y` says that x may stand before y.
use Prim.Native.Nat.{ℕ, ◌+◌}
use mathlib.Core.Path.{◌≡◌, refl}
use mathlib.Core.Bool.{Bool, true}
use mathlib.Core.Logic.{inl, inr}
use mathlib.Core.List.{List, [], ◌∷◌}
use native.Mathlib.Omega.{arith}
use anomaly_detection.Prelude.Tests.{if◌then◌else◌, Bool-cases}
use anomaly_detection.Prelude.Lists.{All}

module _ {ℓ} {A : Type ℓ} where
  -- the sum of a measure over a list
  abbrev pub total : (A → ℕ) → List A → ℕ
  total f [] = 0
  total f (x ∷ xs) = f x + total f xs

  module _ (before : A → A → Bool) where
    unfoldable pub insert_by : A → List A → List A
    insert_by x [] = x ∷ []
    insert_by x (y ∷ ys) = let rest = insert_by x ys in if before x y then x ∷ y ∷ ys else y ∷ rest

    unfoldable pub sort_by : List A → List A
    unfolding insert_by
    sort_by [] = []
    sort_by (x ∷ xs) = insert_by x (sort_by xs)

    -- no element may not stand before the next ones
    abbrev pub IsSortedBy : List A → Type ℓ
    IsSortedBy [] = Unit
    IsSortedBy (x ∷ xs) = All (λ y. before x y ≡ true) xs × IsSortedBy xs

    total-insert_by :
        (f : A → ℕ) (x : A) (xs : List A) → total f (insert_by x xs) ≡ f x + total f xs
    unfolding insert_by
    total-insert_by f x [] = refl
    total-insert_by f x (y ∷ ys) = ground (arith, total-insert_by f x ys)

    -- a sort loses nothing of any measure
    pub total-sort_by : (f : A → ℕ) (xs : List A) → total f (sort_by xs) ≡ total f xs
    unfolding sort_by
    total-sort_by f [] = refl
    total-sort_by f (x ∷ xs) = omega (arith, total-insert_by f x (sort_by xs), total-sort_by f xs)

    All-insert_by {κ} :
        (P : A → Type κ) (x : A) (xs : List A) → P x → All P xs → All P (insert_by x xs)
    unfolding insert_by
    All-insert_by P x [] p h = (p, tt)
    All-insert_by P x (y ∷ ys) p h = elim (Bool-cases (before x y)) [
      | inl e ↦ rw e (p, h)
      | inr e ↦ rw e (h.0, All-insert_by P x ys p h.1)
    ]

    pub All-sort_by {κ} : (P : A → Type κ) (xs : List A) → All P xs → All P (sort_by xs)
    unfolding sort_by
    All-sort_by P [] h = tt
    All-sort_by P (x ∷ xs) h = All-insert_by P x (sort_by xs) h.0 (All-sort_by P xs h.1)
