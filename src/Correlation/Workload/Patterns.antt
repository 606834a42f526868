-- ===== src/Correlation/Workload/Patterns.antt =====
-- The cutting at dashes finds exactly the matches of the regular expressions.
use Prim.Native.String.{◌++◌}
use mathlib.Core.Path.{subst}
use anomaly_detection.Prelude.{
  String, ◌≡◌, refl, ap, ◌↔◌, inl, inr, Bool, true, none, some, arith, Bool-cases, Option-cases,
  ◌==◌, eq_iff,
}
use anomaly_detection.Correlation.Workload.{
  every, is_alnum, is_hex, is_digit, cut, is_name, is_rs_hash, is_suffix, is_number, name_before,
  match_replica, deployment_pattern, stateful_set_pattern, daemon_set_pattern, extract_workload,
}
use anomaly_detection.Correlation.Workload.Cuts.{no_dash, every_mono, Cuts, cut_sound, cut_complete}

-- The classes hold no dash.
alnum_no_dash : (s : String) → every is_alnum s ≡ true → no_dash s ≡ true
unfolding no_dash
alnum_no_dash s = every_mono is_alnum _ s (λ c h. ground arith)

hex_no_dash : (s : String) → every is_hex s ≡ true → no_dash s ≡ true
unfolding no_dash
hex_no_dash s = every_mono is_hex _ s (λ c h. ground arith)

digit_no_dash : (s : String) → every is_digit s ≡ true → no_dash s ≡ true
unfolding no_dash
digit_no_dash s = every_mono is_digit _ s (λ c h. ground arith)

abbrev pub NoDash : (String → Bool) → Type 0
NoDash tail = (s : String) → tail s ≡ true → no_dash s ≡ true

is_suffix-NoDash : NoDash is_suffix
unfolding is_suffix
is_suffix-NoDash s h = alnum_no_dash s (ground arith)

is_rs_hash-NoDash : NoDash is_rs_hash
unfolding is_rs_hash
is_rs_hash-NoDash s h = hex_no_dash s (ground arith)

is_number-NoDash : NoDash is_number
unfolding is_number
is_number-NoDash s h = digit_no_dash s (ground arith)

-- `pod` is the name, a dash and a text of the class
abbrev pub Tailed : (String → Bool) → String → String → Type 0
Tailed tail pod name =
    (rest : String) × (pod ≡ name ++ ("-" ++ rest)) × (tail rest ≡ true) × (is_name name ≡ true)

module _ (tail : String → Bool) (clean : NoDash tail) where
  name_before_of_Tailed :
      (pod name : String) → Tailed tail pod name → name_before tail (cut pod) ≡ some name
  unfolding name_before
  name_before_of_Tailed pod name (rest, e, t, n) =
      rw (e, cut_complete name rest (clean rest t)) (rw (t, n))

  name_before-none : name_before tail none ≡ none
  unfolding name_before
  name_before-none = refl

  Tailed-of_cut :
      (pod name : String) (r : String × String)
      → Cuts pod r
      → name_before tail (some r) ≡ some name
      → Tailed tail pod name
  unfolding name_before
  Tailed-of_cut pod name (w, rest) (parts, _) h =
      let ok : (tail rest ≡ true) × (is_name w ≡ true) × (w ≡ name) = ground arith in
      (
        rest,
        subst (λ x. pod ≡ x ++ ("-" ++ rest)) ok.2 parts,
        ok.0,
        subst (λ x. is_name x ≡ true) ok.2 ok.1,
      )

  Tailed-of_name_before :
      (pod name : String) → name_before tail (cut pod) ≡ some name → Tailed tail pod name
  Tailed-of_name_before pod name h = elim (Option-cases (cut pod)) [
    | inl e ↦ cc (name_before-none, e)
    | inr (r, e) ↦
        Tailed-of_cut pod name r (cut_sound pod r e)
          (subst (λ o. name_before tail o ≡ some name) e h)
  ]

  pub name_before_iff :
      (pod name : String) → (name_before tail (cut pod) ≡ some name) ↔ Tailed tail pod name
  name_before_iff pod name = (Tailed-of_name_before pod name, name_before_of_Tailed pod name)

-- `pod` is a name, a dash and a hash of the replica set, and behind another dash a suffix
abbrev pub Replica : String → String → Type 0
Replica pod name =
    (front : String) × (rest : String) × (pod ≡ front ++ ("-" ++ rest))
    × (is_suffix rest ≡ true)
    × Tailed is_rs_hash front name

deployment_of_Replica : (pod name : String) → Replica pod name → deployment_pattern pod ≡ some name
unfolding deployment_pattern
deployment_of_Replica pod name (front, rest, e, t, front_tailed) =
    rw (e, cut_complete front rest (is_suffix-NoDash rest t))
      (rw t (name_before_of_Tailed is_rs_hash is_rs_hash-NoDash front name front_tailed))

Replica-of_cut :
    (pod name : String) (r : String × String)
    → Cuts pod r
    → match_replica is_suffix (some r) ≡ some name
    → Replica pod name
unfolding match_replica
Replica-of_cut pod name (front, rest) (parts, _) h = elim (Bool-cases (is_suffix rest)) [
  | inl t ↦ (
    front,
    rest,
    parts,
    t,
    Tailed-of_name_before is_rs_hash is_rs_hash-NoDash front name (rw t at h),
  )
  | inr t ↦ cc (rw t at h)
]

match_replica-none : (tail : String → Bool) → match_replica tail none ≡ none
unfolding match_replica
match_replica-none tail = refl

Replica-of_deployment : (pod name : String) → deployment_pattern pod ≡ some name → Replica pod name
unfolding deployment_pattern
Replica-of_deployment pod name h = elim (Option-cases (cut pod)) [
  | inl e ↦ cc (match_replica-none is_suffix, e)
  | inr (r, e) ↦
      Replica-of_cut pod name r (cut_sound pod r e)
        (subst (λ o. match_replica is_suffix o ≡ some name) e h)
]

-- Each of the three matchers returns a name exactly when the pod name has the shape of its regular
-- expression with that name in front: name-hash-suffix, name-number and name-suffix.
pub pattern_iff :
    (pod name : String)
    → ((deployment_pattern pod ≡ some name) ↔ Replica pod name)
      × ((stateful_set_pattern pod ≡ some name) ↔ Tailed is_number pod name)
      × ((daemon_set_pattern pod ≡ some name) ↔ Tailed is_suffix pod name)
unfolding stateful_set_pattern daemon_set_pattern
pattern_iff pod name = (
  (Replica-of_deployment pod name, deployment_of_Replica pod name),
  name_before_iff is_number is_number-NoDash pod name,
  name_before_iff is_suffix is_suffix-NoDash pod name,
)

no_empty_deployment : deployment_pattern "" ≡ none
unfolding deployment_pattern
no_empty_deployment = refl

no_empty_stateful_set : stateful_set_pattern "" ≡ none
unfolding stateful_set_pattern
no_empty_stateful_set = refl

extract_of_deployment :
    (pod name : String) → deployment_pattern pod ≡ some name → extract_workload pod ≡ name
unfolding extract_workload
extract_of_deployment pod name h = elim (Bool-cases (pod == "")) [
  | inl e ↦ cc (no_empty_deployment, ap deployment_pattern ((eq_iff pod "").0 e))
  | inr e ↦ rw (e, h)
]

extract_of_stateful_set :
    (pod name : String)
    → deployment_pattern pod ≡ none
    → stateful_set_pattern pod ≡ some name
    → extract_workload pod ≡ name
unfolding extract_workload
extract_of_stateful_set pod name d h = elim (Bool-cases (pod == "")) [
  | inl e ↦ cc (no_empty_stateful_set, ap stateful_set_pattern ((eq_iff pod "").0 e))
  | inr e ↦ rw (e, d, h)
]

-- All pods of a Deployment, whatever their hashes, have the Deployment's name as their workload.
pub extract_workload-Replica : (pod name : String) → Replica pod name → extract_workload pod ≡ name
extract_workload-Replica pod name r = extract_of_deployment pod name ((pattern_iff pod name).0.1 r)

-- All pods of a StatefulSet whose names do not themselves read as a Deployment's pods have the
-- StatefulSet's name as their workload.
pub extract_workload-ordinal :
    (pod name : String)
    → deployment_pattern pod ≡ none
    → Tailed is_number pod name
    → extract_workload pod ≡ name
extract_workload-ordinal pod name d t =
    extract_of_stateful_set pod name d ((pattern_iff pod name).1.1 t)
