-- ===== src/Labels.antt =====
-- `map[string]string`: the label sets of series and anomalies, and the other string-keyed maps that
-- the program only reads. A map is a list of entries; the first entry of a key counts, and the
-- order of the list is the order in which one run happens to range over the map.
use anomaly_detection.Prelude.{
  String, ◌≡◌, refl, Option, none, some, Bool, true, false, List, [], ◌∷◌, arith, ◌==◌, eq_iff,
  if◌then◌else◌, Bool-cases, inl, inr, All,
}
use mathlib.Core.Path.{subst}
use mathlib.Core.Option.{some-injective}

module _ {V : Type 0} where
  -- v, ok := m[key]
  unfoldable pub lookup : String → List (String × V) → Option V
  lookup key [] = none
  lookup key (entry ∷ rest) = if entry.0 == key then some entry.1 else lookup key rest

  -- m[key] = value, in the place of the key or at the end
  unfoldable pub insert : String → V → List (String × V) → List (String × V)
  insert key value [] = (key, value) ∷ []
  insert key value (entry ∷ rest) =
      let behind = insert key value rest in
      if entry.0 == key then (key, value) ∷ rest else entry ∷ behind

  -- a write is read back at its key, and leaves every other key alone
  pub lookup-insert :
      (written read : String) (value : V) (m : List (String × V))
      → lookup read (insert written value m)
        ≡ (if written == read then some value else lookup read m)
  unfolding lookup insert
  lookup-insert written read value [] = refl
  lookup-insert written read value (entry ∷ rest) = ground (
    arith,
    lookup-insert written read value rest,
    eq_iff entry.0 read,
    eq_iff written read,
    eq_iff entry.0 written,
  )

  -- what holds of all entries holds behind a write of an entry of which it holds
  pub All-insert :
      (P : String × V → Type 0) (key : String) (value : V) (m : List (String × V))
      → P (key, value)
      → All P m
      → All P (insert key value m)
  unfolding insert
  All-insert P key value [] p h = (p, tt)
  All-insert P key value (entry ∷ rest) p h = elim (Bool-cases (entry.0 == key)) [
    | inl e ↦ rw e (p, h.1)
    | inr e ↦ rw e (h.0, All-insert P key value rest p h.1)
  ]

  -- and of an entry that is read
  pub All-lookup :
      (P : String × V → Type 0) (key : String) (value : V) (m : List (String × V))
      → All P m
      → lookup key m ≡ some value
      → P (key, value)
  unfolding lookup
  All-lookup P key value [] h e = cc e
  All-lookup P key value (entry ∷ rest) h e = elim (Bool-cases (entry.0 == key)) [
    | inl same ↦
        let found : entry.1 ≡ value = some-injective _ _ (rw same at e) in
        subst P (λ i. ((eq_iff entry.0 key).0 same i, found i)) h.0
    | inr other ↦ All-lookup P key value rest h.1 (rw other at e)
  ]

abbrev pub Labels : Type 0
Labels = List (String × String)

abbrev or_empty : Option String → String
or_empty none = ""
or_empty (some v) = v

-- m[k], the empty text where the key is missing
unfoldable pub get : Labels → String → String
unfolding lookup
get m k = or_empty (lookup k m)

pub get-insert :
    (k j v : String) (m : Labels) → get (insert k v m) j ≡ (if k == j then v else get m j)
unfolding get
get-insert k j v m = elim (Bool-cases (k == j)) [
  | inl e ↦ rw (lookup-insert k j v m, e) refl
  | inr e ↦ rw (lookup-insert k j v m, e) refl
]

-- a set kept as map[string]bool or map[string]struct{}
unfoldable pub contains : List String → String → Bool
contains [] k = false
contains (x ∷ xs) k = if x == k then true else contains xs k
