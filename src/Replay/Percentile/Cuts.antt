-- ===== src/Replay/Percentile/Cuts.antt =====
-- controller/internal/replay/metrics.go: a buffer cut at the position of the ring.
use anomaly_detection.Prelude.{
  ℕ, zero, suc, ◌+◌, ◌<◌, ◌≡◌, refl, sym, ap, Bool, true, false, some, List, [], ◌∷◌, ◌++◌, length,
  length-append, take, drop, leb, le→leb, arith, if◌then◌else◌,
}
use mathlib.Core.List.{append-nil, append_assoc}
use anomaly_detection.Replay.Percentile.{set_at, get_at}

module _ {ℓ} {A : Type ℓ} where
  -- the abstract window: a new value at the end, and the oldest one out where the window is full
  abbrev pub slide : ℕ → List A → A → List A
  slide size xs v = (if leb size (length xs) then drop 1 xs else xs) ++ (v ∷ [])

  -- a list cut before an index
  pub record Cut (n : ℕ) (xs : List A) : Type ℓ where
    pub before : List A
    pub here : A
    pub after : List A
    pub whole : xs ≡ before ++ (here ∷ after)
    pub place : length before ≡ n

  pub split_place : (n : ℕ) (xs : List A) → n < length xs → Cut n xs
  split_place n [] h = absurd (omega (arith, h))
  split_place zero (x ∷ xs) h = record {
    before = [];
    here = x;
    after = xs;
    whole = refl;
    place = refl;
  }
  split_place (suc n) (x ∷ xs) h =
      let c = split_place n xs (omega (arith, h)) in
      record {
        before = x ∷ c.before;
        here = c.here;
        after = c.after;
        whole = ap (λ ys. x ∷ ys) c.whole;
        place = ap suc c.place;
      }

  take-append : (xs ys : List A) → take (length xs) (xs ++ ys) ≡ xs
  take-append [] ys = refl
  take-append (x ∷ xs) ys = ap (λ zs. x ∷ zs) (take-append xs ys)

  drop-append : (xs ys : List A) → drop (length xs) (xs ++ ys) ≡ ys
  drop-append [] ys = refl
  drop-append (x ∷ xs) ys = drop-append xs ys

  pub set_at-append :
      (xs ys : List A) (x v : A) → set_at (length xs) v (xs ++ (x ∷ ys)) ≡ some (xs ++ (v ∷ ys))
  unfolding set_at
  set_at-append [] ys x v = refl
  set_at-append (y ∷ xs) ys x v = rw (set_at-append xs ys x v) refl

  pub get_at_found : (n : ℕ) (xs : List A) → n < length xs → (x : A) × (get_at n xs ≡ some x)
  unfolding get_at
  get_at_found n [] h = absurd (omega (arith, h))
  get_at_found zero (x ∷ xs) h = (x, refl)
  get_at_found (suc n) (x ∷ xs) h = get_at_found n xs (omega (arith, h))

  -- the values of a ring, the oldest first
  abbrev pub contents_of : Bool → ℕ → List A → List A
  contents_of full pos buf = if full then drop pos buf ++ take pos buf else take pos buf

  at_append :
      (full : Bool) (xs ys : List A)
      → contents_of full (length xs) (xs ++ ys) ≡ (if full then ys ++ xs else xs)
  at_append true xs ys = rw (drop-append xs ys, take-append xs ys) refl
  at_append false xs ys = take-append xs ys

  at_last : (xs : List A) (v : A) → length xs + 1 ≡ length (xs ++ (v ∷ []))
  at_last xs v = omega (arith, length-append xs (v ∷ []))

  -- behind the new value, the ring before its end
  at_next :
      (full : Bool) (xs ys : List A) (v : A)
      → contents_of full (length xs + 1) (xs ++ (v ∷ ys))
        ≡ (if full then ys ++ (xs ++ (v ∷ [])) else xs ++ (v ∷ []))
  at_next full xs ys v =
      rw (at_last xs v, ← append_assoc xs (v ∷ []) ys) (at_append full (xs ++ (v ∷ [])) ys)

  -- the contents move as the abstract window does, at the end of the buffer and before it
  pub slides_at_end :
      (full : Bool) (xs : List A) (x v : A)
      → contents_of true 0 (xs ++ (v ∷ []))
        ≡ slide (length xs + 1) (contents_of full (length xs) (xs ++ (x ∷ []))) v
  slides_at_end true xs x v =
      rw
        (
          at_append true xs (x ∷ []),
          append-nil (xs ++ (v ∷ [])),
          le→leb (length xs + 1) (suc (length xs)) (omega arith),
        )
        refl
  slides_at_end false xs x v =
      let room : leb (length xs + 1) (length xs) ≡ false = ground arith in
      rw (at_append false xs (x ∷ []), append-nil (xs ++ (v ∷ [])), room) refl

  pub slides_before_end :
      (full : Bool) (xs ys : List A) (x y v : A)
      → contents_of full (length xs + 1) (xs ++ (v ∷ y ∷ ys))
        ≡ slide (length (xs ++ (x ∷ y ∷ ys))) (contents_of full (length xs) (xs ++ (x ∷ y ∷ ys))) v
  slides_before_end true xs ys x y v =
      let at : leb (length (xs ++ (x ∷ y ∷ ys))) (length ((x ∷ y ∷ ys) ++ xs)) ≡ true =
        le→leb _ _ (omega (arith, length-append xs (x ∷ y ∷ ys), length-append (x ∷ y ∷ ys) xs)) in
      rw (at_next true xs (y ∷ ys) v, at_append true xs (x ∷ y ∷ ys), at)
        (sym (append_assoc (y ∷ ys) xs (v ∷ [])))
  slides_before_end false xs ys x y v =
      let room : leb (length (xs ++ (x ∷ y ∷ ys))) (length xs) ≡ false =
        ground (arith, length-append xs (x ∷ y ∷ ys)) in
      rw (at_next false xs (y ∷ ys) v, at_append false xs (x ∷ y ∷ ys), room) refl
