-- ===== src/Replay/Percentile/Sliding.antt =====
-- controller/internal/replay/metrics.go: the ring moves as a list of the last values does.
use mathlib.Core.Path.{subst}
use anomaly_detection.Prelude.{
  ℕ, suc, ◌+◌, ◌-◌, ◌≤◌, ◌<◌, ◌≡◌, refl, sym, ap, ◌∙◌, Bool, true, false, some, List, [], ◌∷◌, ◌++◌,
  length, length-append, drop, leb, le→leb, arith, Bool-cases, inl, inr,
}
use mathlib.Core.List.{append-nil, append_assoc}
use anomaly_detection.Replay.Percentile.{P95Window, advance, add_value, add_values}
use anomaly_detection.Replay.Percentile.Cuts.{
  slide, split_place, set_at-append, contents_of, slides_at_end, slides_before_end,
}

module _ {F : Type 0} where
  abbrev pub ring : List F → ℕ → Bool → P95Window F
  ring buf pos full = record { buf = buf; pos = pos; full = full }

  -- the values of the ring, the oldest first
  abbrev pub contents : P95Window F → List F
  contents w = contents_of w.full w.pos w.buf

  -- the ring has its size, and its position is an index
  abbrev pub IsRing : ℕ → P95Window F → Type 0
  IsRing size w = (length w.buf ≡ size) × (w.pos < size)

  -- adding a value keeps the ring, and moves its contents as the abstract window
  abbrev Slides : ℕ → P95Window F → F → Type 0
  Slides size w v =
      (w' : P95Window F) × (add_value w v ≡ some w')
      × IsRing size w'
      × (contents w' ≡ slide size (contents w) v)

  advance_end :
      (full : Bool) (xs : List F) (x v : F)
      → add_value (ring (xs ++ (x ∷ [])) (length xs) full) v ≡ some (ring (xs ++ (v ∷ [])) 0 true)
  unfolding add_value advance
  advance_end full xs x v =
      let wraps : leb (length (xs ++ (v ∷ []))) (length xs + 1) ≡ true =
        le→leb _ _ (omega (arith, length-append xs (v ∷ []))) in
      rw (set_at-append xs [] x v) (rw wraps refl)

  advance_before_end :
      (full : Bool) (xs ys : List F) (x y v : F)
      → add_value (ring (xs ++ (x ∷ y ∷ ys)) (length xs) full) v
        ≡ some (ring (xs ++ (v ∷ y ∷ ys)) (length xs + 1) full)
  unfolding add_value advance
  advance_before_end full xs ys x y v =
      let stays : leb (length (xs ++ (v ∷ y ∷ ys))) (length xs + 1) ≡ false =
        ground (arith, length-append xs (v ∷ y ∷ ys)) in
      rw (set_at-append xs (y ∷ ys) x v) (rw stays refl)

  ring_moves :
      (full : Bool) (xs ys : List F) (x v : F)
      → Slides (length (xs ++ (x ∷ ys))) (ring (xs ++ (x ∷ ys)) (length xs) full) v
  ring_moves full xs [] x v =
      let long = length-append xs (x ∷ []) in
      (
        ring (xs ++ (v ∷ [])) 0 true,
        advance_end full xs x v,
        (omega (arith, long, length-append xs (v ∷ [])), omega (arith, long)),
        rw (long) (slides_at_end full xs x v),
      )
  ring_moves full xs (y ∷ ys) x v =
      let long = length-append xs (x ∷ y ∷ ys) in
      (
        ring (xs ++ (v ∷ y ∷ ys)) (length xs + 1) full,
        advance_before_end full xs ys x y v,
        (omega (arith, long, length-append xs (v ∷ y ∷ ys)), omega (arith, long)),
        slides_before_end full xs ys x y v,
      )

  add_value-Slides : (size : ℕ) (w : P95Window F) (v : F) → IsRing size w → Slides size w v
  add_value-Slides size w v (long, inside) =
      let c = split_place w.pos w.buf (omega (arith, long, inside)) in
      let step = ring_moves w.full c.before c.after c.here v in
      subst (λ n. Slides n w v) long
        (subst (λ n. Slides (length w.buf) (ring w.buf n w.full) v) c.place
          (subst (λ b. Slides (length b) (ring b (length c.before) w.full) v) (sym c.whole) step))

  -- the abstract window behind some values
  abbrev pub slide_all : ℕ → List F → List F → List F
  slide_all size xs [] = xs
  slide_all size xs (v ∷ values) = slide_all size (slide size xs v) values

  pub add_values-slide_all :
      (size : ℕ) (w : P95Window F) (values : List F)
      → IsRing size w
      → (w' : P95Window F) × (add_values w values ≡ some w')
        × IsRing size w'
        × (contents w' ≡ slide_all size (contents w) values)
  unfolding add_values
  add_values-slide_all size w [] h = (w, refl, h, refl)
  add_values-slide_all size w (v ∷ values) h =
      let (w', step, h', moved) = add_value-Slides size w v h in
      let (last, run, h'', same) = add_values-slide_all size w' values h' in
      (last, rw (add_values, step) run, h'', same ∙ ap (λ xs. slide_all size xs values) moved)

  -- the last values of a list, and what sliding does to them
  abbrev pub last_of : ℕ → List F → List F → List F
  last_of size xs values = drop (length xs + length values - size) (xs ++ values)

  last_of-room :
      (size : ℕ) (xs values : List F) (v : F)
      → leb size (length xs) ≡ false
      → last_of size (slide size xs v) values ≡ last_of size xs (v ∷ values)
  last_of-room size xs values v e =
      let same : length (xs ++ (v ∷ [])) + length values ≡ length xs + suc (length values) =
        omega (arith, length-append xs (v ∷ [])) in
      rw (e, same, append_assoc xs (v ∷ []) values) refl

  last_of-full :
      (size : ℕ) (xs values : List F) (v : F)
      → leb size (length xs) ≡ true
      → length xs ≤ size
      → 0 < size
      → last_of size (slide size xs v) values ≡ last_of size xs (v ∷ values)
  last_of-full size [] values v e h positive = absurd (ground (arith, e, positive))
  last_of-full size (x ∷ xs) values v e h positive =
      let here : length (xs ++ (v ∷ [])) + length values - size ≡ length values =
        ground (arith, e, h, length-append xs (v ∷ [])) in
      let there : suc (length xs) + suc (length values) - size ≡ suc (length values) =
        ground (arith, e, h) in
      rw (e, here, there, append_assoc xs (v ∷ []) values) refl

  length-slide :
      (size : ℕ) (xs : List F) (v : F)
      → length xs ≤ size
      → 0 < size
      → length (slide size xs v) ≤ size
  length-slide size [] v h positive = ground (arith, positive)
  length-slide size (x ∷ xs) v h positive = elim (Bool-cases (leb size (length (x ∷ xs)))) [
    | inl e ↦ rw e (omega (arith, h, length-append xs (v ∷ [])))
    | inr e ↦ rw e (ground (arith, e, length-append xs (v ∷ [])))
  ]

  pub slide_all-last_of :
      (size : ℕ) (xs values : List F)
      → 0 < size
      → length xs ≤ size
      → slide_all size xs values ≡ last_of size xs values
  slide_all-last_of size xs [] positive h =
      let nothing : length xs + 0 - size ≡ 0 = omega (arith, h) in rw (nothing, append-nil xs) refl
  slide_all-last_of size xs (v ∷ values) positive h =
      slide_all-last_of size (slide size xs v) values positive (length-slide size xs v h positive)
      ∙ elim (Bool-cases (leb size (length xs))) [
        | inl e ↦ last_of-full size xs values v e h positive
        | inr e ↦ last_of-room size xs values v e
      ]
