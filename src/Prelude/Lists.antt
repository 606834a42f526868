-- ===== src/Prelude/Lists.antt =====
-- Lists measured by native numbers, predicates on all elements, and Boolean filters.
use Prim.Native.Nat.{ℕ, zero, suc, ◌+◌}
use mathlib.Core.Path.{◌≡◌, refl}
use mathlib.Core.Logic.{◌⊎◌, inl, inr}
use mathlib.Core.Bool.{Bool}
use mathlib.Core.List.{List, [], ◌∷◌, ◌++◌, map}
use native.Mathlib.Omega.{arith}
use anomaly_detection.Prelude.Tests.{if◌then◌else◌}

module _ {ℓ} {A : Type ℓ} where
  abbrev pub length : List A → ℕ
  length [] = 0
  length (x ∷ xs) = suc (length xs)

  abbrev pub take : ℕ → List A → List A
  take zero xs = []
  take (suc n) [] = []
  take (suc n) (x ∷ xs) = x ∷ take n xs

  pub take-nil : (n : ℕ) → take n [] ≡ []
  take-nil zero = refl
  take-nil (suc n) = refl

  abbrev pub drop : ℕ → List A → List A
  drop zero xs = xs
  drop (suc n) [] = []
  drop (suc n) (x ∷ xs) = drop n xs

  pub length-append : (xs ys : List A) → length (xs ++ ys) ≡ length xs + length ys
  length-append [] ys = omega arith
  length-append (x ∷ xs) ys = omega (arith, length-append xs ys)

  abbrev pub All {κ} : (A → Type κ) → List A → Type κ
  All P [] = Unit
  All P (x ∷ xs) = P x × All P xs

  -- the elements that pass a test, in order
  abbrev pub select : (A → Bool) → List A → List A
  select p [] = []
  select p (x ∷ xs) = let rest = select p xs in if p x then x ∷ rest else rest

  -- how many elements pass a test
  abbrev pub count_if : (A → Bool) → List A → ℕ
  count_if p [] = 0
  count_if p (x ∷ xs) = if p x then suc (count_if p xs) else count_if p xs

  pub count_if-append :
      (q : A → Bool) (xs ys : List A) → count_if q (xs ++ ys) ≡ count_if q xs + count_if q ys
  count_if-append q [] ys = omega arith
  count_if-append q (x ∷ xs) ys = ground (arith, count_if-append q xs ys)

  pub All-append {κ} : (P : A → Type κ) (xs ys : List A) → All P xs → All P ys → All P (xs ++ ys)
  All-append P [] ys p q = q
  All-append P (x ∷ xs) ys p q = (p.0, All-append P xs ys p.1 q)

  pub All-implies {κ μ} :
      (P : A → Type κ) (Q : A → Type μ) (xs : List A) → ((x : A) → P x → Q x) → All P xs → All Q xs
  All-implies P Q [] f h = tt
  All-implies P Q (x ∷ xs) f h = (f x h.0, All-implies P Q xs f h.1)

module _ {A : Type 0} where
  -- some element has the property
  abbrev pub Any : (A → Type 0) → List A → Type 0
  Any P [] = ⊥
  Any P (x ∷ xs) = P x ⊎ Any P xs

  pub Any-implies : (P Q : A → Type 0) (xs : List A) → ((x : A) → P x → Q x) → Any P xs → Any Q xs
  Any-implies P Q [] f h = h
  Any-implies P Q (x ∷ xs) f (inl h) = inl (f x h)
  Any-implies P Q (x ∷ xs) f (inr h) = inr (Any-implies P Q xs f h)

  -- every element is among the elements
  pub All-among : (xs : List A) → All (λ x. Any (λ y. y ≡ x) xs) xs
  All-among [] = tt
  All-among (x ∷ xs) = (
    inl refl,
    All-implies (λ a. Any (λ y. y ≡ a) xs) (λ a. Any (λ y. y ≡ a) (x ∷ xs)) xs (λ a h. inr h)
        (All-among xs),
  )

module _ {ℓ κ} {A : Type ℓ} {B : Type κ} where
  pub count_if-map :
      (q : B → Bool) (f : A → B) (xs : List A) → count_if q (map f xs) ≡ count_if (λ a. q (f a)) xs
  count_if-map q f [] = refl
  count_if-map q f (x ∷ xs) = ground (arith, count_if-map q f xs)

  pub All-map {μ} :
      (P : B → Type μ) (f : A → B) (xs : List A) → All (λ x. P (f x)) xs → All P (map f xs)
  All-map P f [] h = tt
  All-map P f (x ∷ xs) h = (h.0, All-map P f xs h.1)

  pub length-map : (f : A → B) (xs : List A) → length (map f xs) ≡ length xs
  length-map f [] = refl
  length-map f (x ∷ xs) = omega (arith, length-map f xs)
