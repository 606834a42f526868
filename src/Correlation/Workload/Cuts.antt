-- ===== src/Correlation/Workload/Cuts.antt =====
-- `cut` of Workload, which cuts a text at its last dash.
use Prim.Native.Char.{Char}
use Prim.Native.String.{[], ◌∷◌, ◌++◌}
use mathlib.Core.Path.{subst}
use mathlib.Core.Option.{some-injective}
use text.Mathlib.TextLemmas.{nil-append, cons-append}
use text.Mathlib.TextEquality.{Char-path}
use anomaly_detection.Prelude.{
  String, ◌≡◌, refl, sym, ◌∙◌, ap, inl, inr, Bool, true, false, not, none, some, arith, Bool-cases,
  Option-cases,
}
use anomaly_detection.Correlation.Workload.{every, is_dash, cut}

unfoldable pub no_dash : String → Bool
unfolding every
no_dash = every (λ c. not (is_dash c))

pub dash_char : (c : Char) → is_dash c ≡ true → c ≡ "-"
dash_char c h = Char-path c "-" (ground arith)

pub every_mono :
    (p q : Char → Bool) (s : String)
    → ((c : Char) → p c ≡ true → q c ≡ true)
    → every p s ≡ true
    → every q s ≡ true
unfolding every
every_mono p q [] h e = refl
every_mono p q (c ∷ s) h e = elim (Bool-cases (p c)) [
  | inl pc ↦ rw (h c pc) (every_mono p q s h (ground arith))
  | inr pc ↦ cc (rw pc at e)
]

cut-eq-none : (s : String) → no_dash s ≡ true → cut s ≡ none
unfolding no_dash cut
cut-eq-none [] h = refl
cut-eq-none (c ∷ s) h = rw (cut-eq-none s (ground arith)) (ground arith)

no_dash_of_cut : (s : String) → cut s ≡ none → no_dash s ≡ true
unfolding no_dash cut
no_dash_of_cut [] h = refl
no_dash_of_cut (c ∷ s) h = elim (Option-cases (cut s)) [
  | inl e ↦ ground (arith, no_dash_of_cut s e)
  | inr (r, e) ↦ cc (rw e at h)
]

cut_later :
    (c : Char) (s : String) (r : String × String)
    → cut s ≡ some r
    → cut (c ∷ s) ≡ some (c ∷ r.0, r.1)
unfolding cut
cut_later c s r e = rw (e, cut)

cut_here : (c : Char) (s : String) → cut s ≡ none → is_dash c ≡ true → cut (c ∷ s) ≡ some ([], s)
unfolding cut
cut_here c s e d = rw (e, cut) (rw d)

cut_nowhere : (c : Char) (s : String) → cut s ≡ none → is_dash c ≡ false → cut (c ∷ s) ≡ none
unfolding cut
cut_nowhere c s e d = rw (e, cut) (rw d)

pub cut-nil : cut [] ≡ none
unfolding cut
cut-nil = refl

abbrev pub Cuts : String → String × String → Type 0
Cuts s r = (s ≡ r.0 ++ ("-" ++ r.1)) × (no_dash r.1 ≡ true)

-- what is cut off holds no dash, and the parts make up the text
pub cut_sound : (s : String) (r : String × String) → cut s ≡ some r → Cuts s r
cut_sound [] r h = cc cut-nil
cut_sound (c ∷ s) r h = elim (Option-cases (cut s)) [
  | inr (q, e) ↦
      let same : (c ∷ q.0, q.1) ≡ r = some-injective _ _ (sym (cut_later c s q e) ∙ h) in
      let (parts, clean) = cut_sound s q e in
      subst (Cuts (c ∷ s)) same (rw cons-append (ap (◌∷◌ c) parts), clean)
  | inl e ↦ elim (Bool-cases (is_dash c)) [
    | inl d ↦
        let same : ([], s) ≡ r = some-injective _ _ (sym (cut_here c s e d) ∙ h) in
        subst (Cuts (c ∷ s)) same
          (rw (nil-append, cons-append, nil-append) (rw (dash_char c d)), no_dash_of_cut s e)
    | inr d ↦ cc (cut_nowhere c s e d)
  ]
]

pub cut_complete : (a b : String) → no_dash b ≡ true → cut (a ++ ("-" ++ b)) ≡ some (a, b)
cut_complete [] b h =
    rw (nil-append, cons-append, nil-append) (cut_here "-" b (cut-eq-none b h) refl)
cut_complete (c ∷ a) b h =
    rw cons-append (cut_later c (a ++ ("-" ++ b)) (a, b) (cut_complete a b h))
