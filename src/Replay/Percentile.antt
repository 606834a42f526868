-- ===== src/Replay/Percentile.antt =====
-- controller/internal/replay/metrics.go: `p95Window`, a ring of the last durations. An access out of
-- range, which panics, is `none`; `trunc` is the conversion of a float to int.
pub mod Cuts
pub mod Sliding
pub mod Bounds
use anomaly_detection.Prelude.{
  ℕ, zero, suc, ◌+◌, ◌-◌, Bool, true, false, not, ◌&&◌, ◌||◌, Option, none, some, List, [], ◌∷◌,
  length, take, leb, sort_by, if◌then◌else◌,
}
use anomaly_detection.Float64.{Float64}

pub record P95Window (F : Type 0) : Type 0 where
  pub buf : List F
  pub pos : ℕ
  pub full : Bool

module _ {ℓ} {A : Type ℓ} where
  -- n times the same element
  abbrev pub replicate : ℕ → A → List A
  replicate zero x = []
  replicate (suc n) x = x ∷ replicate n x

  abbrev in_front : A → Option (List A) → Option (List A)
  in_front x none = none
  in_front x (some xs) = some (x ∷ xs)

  -- xs[n] = v
  unfoldable pub set_at : ℕ → A → List A → Option (List A)
  set_at n v [] = none
  set_at zero v (x ∷ xs) = some (v ∷ xs)
  set_at (suc n) v (x ∷ xs) = in_front x (set_at n v xs)

  -- xs[n]
  unfoldable pub get_at : ℕ → List A → Option A
  get_at n [] = none
  get_at zero (x ∷ xs) = some x
  get_at (suc n) (x ∷ xs) = get_at n xs

module _ {F : Type 0} where
  -- `add` on the buffer with the new value
  unfoldable pub advance : P95Window F → Option (List F) → Option (P95Window F)
  advance w none = none
  advance w (some buf) =
      let wraps = leb (length buf) (w.pos + 1) in
      some (record {
        buf = buf;
        pos = if wraps then 0 else w.pos + 1;
        full = if wraps then true else w.full;
      })

  unfoldable pub add_value : P95Window F → F → Option (P95Window F)
  unfolding advance
  add_value w v = advance w (set_at w.pos v w.buf)

  -- add on each value in turn
  unfoldable pub add_values : P95Window F → List F → Option (P95Window F)
  unfolding add_value
  add_values w [] = some w
  add_values w (v ∷ values) = elim (add_value w v) [ none ↦ none | some w' ↦ add_values w' values ]

  -- the values that the percentile is taken of, in the order of the buffer
  unfoldable pub held_values : P95Window F → List F
  held_values w = if w.full then w.buf else take w.pos w.buf

  module _ ⦃fl : Float64 F⦄ where
    unfoldable pub new_p95_window : ℕ → P95Window F
    new_p95_window size = record { buf = replicate size (fl.lit 0 1); pos = 0; full = false }

    abbrev is_nan : F → Bool
    is_nan x = not (fl.eq x x)

    -- sort.Float64s: in increasing order, NaN first
    abbrev pub not_after : F → F → Bool
    not_after x y = not (fl.lt y x || (is_nan y && not (is_nan x)))

    -- the index int(float64(n-1) * 0.95)
    abbrev pub p95_index : (F → ℕ) → ℕ → ℕ
    p95_index trunc n = trunc (fl.mul (fl.lit (n - 1) 1) (fl.lit 95 100))

    unfoldable pub p95_of : (F → ℕ) → List F → Option F
    p95_of trunc [] = some (fl.lit 0 1)
    p95_of trunc (x ∷ xs) = get_at (p95_index trunc (length (x ∷ xs))) (sort_by not_after (x ∷ xs))

    -- `p95`
    unfoldable pub p95 : (F → ℕ) → P95Window F → Option F
    unfolding p95_of held_values
    p95 trunc w = p95_of trunc (held_values w)
