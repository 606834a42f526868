-- ===== src/Correlation/Correlator/Patterns/Counted.antt =====
-- controller/internal/correlation/correlator.go: the first loop of `detectWorkloadPatterns` collects,
-- for each workload, all its pods and the keys of all their groups.
use anomaly_detection.Prelude.{
  ℕ, ◌<◌, ◌⊎◌, leb, length, ◌≡◌, refl, ap, ◌∙◌, String, true, false, ◌||◌, Option, none, some, List,
  [], ◌∷◌, ◌++◌, ◌==◌, All, All-implies, arith, Bool-cases, inl, inr, eq_iff, if◌then◌else◌,
}
use mathlib.Core.Option.{some-injective}
use anomaly_detection.Labels.{lookup, contains, lookup-insert}
use anomaly_detection.Detection.{Anomaly}
use anomaly_detection.Correlation.Correlator.{Group, add_to_set}
use anomaly_detection.Correlation.Correlator.Patterns.{
  WlAccumulator, Member, member_of, accumulator, enlarged, absorb, accumulate,
}

pub contains-append :
    (xs ys : List String) (k : String) → contains (xs ++ ys) k ≡ (contains xs k || contains ys k)
unfolding contains
contains-append [] ys k = refl
contains-append (x ∷ xs) ys k = ground (arith, contains-append xs ys k)

-- the pods of a workload with that of one more group, if it takes part in patterns for it
abbrev with_pod : String → Option Member → List String → List String
with_pod wl_key none pods = pods
with_pod wl_key (some m) pods = if m.wl_key == wl_key then add_to_set m.pod pods else pods

abbrev with_key : String → String → Option Member → List String → List String
with_key wl_key key none keys = keys
with_key wl_key key (some m) keys = if m.wl_key == wl_key then keys ++ (key ∷ []) else keys

kept_key :
    (wl_key key other : String) (m : Option Member) (keys : List String)
    → contains keys other ≡ true
    → contains (with_key wl_key key m keys) other ≡ true
kept_key wl_key key other none keys h = h
kept_key wl_key key other (some m) keys h = elim (Bool-cases (m.wl_key == wl_key)) [
  | inl e ↦ rw (e, contains-append keys (key ∷ []) other, h) refl
  | inr e ↦ rw e h
]

own_key :
    (wl_key key : String) (m : Member) (keys : List String)
    → (m.wl_key == wl_key) ≡ true
    → contains (with_key wl_key key (some m) keys) key ≡ true
unfolding contains
own_key wl_key key m keys e =
    rw (e, contains-append keys (key ∷ []) key) (ground (arith, eq_iff key key))

module _ {F : Type 0} where
  -- the distinct pods of a workload among some groups, behind those found before
  abbrev pub pods_among : String → List String → List (String × Group F) → List String
  pods_among wl_key pods [] = pods
  pods_among wl_key pods (e ∷ groups) =
      pods_among wl_key (with_pod wl_key (member_of e.1.anomalies) pods) groups

  abbrev pub pods_in : Option (WlAccumulator F) → List String
  pods_in none = []
  pods_in (some acc) = acc.pods

  abbrev pub keys_in : Option (WlAccumulator F) → List String
  keys_in none = []
  keys_in (some acc) = acc.pod_keys

  enlarged_pods :
      (old : Option (WlAccumulator F)) (m : Member) (key : String) (found : List (Anomaly F))
      → (enlarged (accumulator old m) m key found).pods ≡ add_to_set m.pod (pods_in old)
  enlarged_pods none m key found = refl
  enlarged_pods (some acc) m key found = refl

  enlarged_keys :
      (old : Option (WlAccumulator F)) (m : Member) (key : String) (found : List (Anomaly F))
      → (enlarged (accumulator old m) m key found).pod_keys ≡ keys_in old ++ (key ∷ [])
  enlarged_keys none m key found = refl
  enlarged_keys (some acc) m key found = refl

  absorb_at :
      (wl_key key : String) (found : List (Anomaly F)) (m : Option Member)
      (wls : List (String × WlAccumulator F))
      → let after = lookup wl_key (absorb key found m wls) in
        (pods_in after ≡ with_pod wl_key m (pods_in (lookup wl_key wls)))
        × (keys_in after ≡ with_key wl_key key m (keys_in (lookup wl_key wls)))
  unfolding absorb
  absorb_at wl_key key found none wls = (refl, refl)
  absorb_at wl_key key found (some m) wls =
      let acc = enlarged (accumulator (lookup m.wl_key wls) m) m key found in
      elim (Bool-cases (m.wl_key == wl_key)) [
        | inl e ↦
            let same : m.wl_key ≡ wl_key = (eq_iff m.wl_key wl_key).0 e in
            rw (lookup-insert m.wl_key wl_key acc wls, e)
              (
                enlarged_pods (lookup m.wl_key wls) m key found
                    ∙ ap (λ k. add_to_set m.pod (pods_in (lookup k wls))) same,
                enlarged_keys (lookup m.wl_key wls) m key found
                    ∙ ap (λ k. keys_in (lookup k wls) ++ (key ∷ [])) same,
              )
        | inr e ↦ rw (lookup-insert m.wl_key wl_key acc wls, e) (refl, refl)
      ]

  -- the accumulator of a workload lists its pods among the groups
  pub accumulate_pods :
      (wl_key : String) (groups : List (String × Group F)) (wls : List (String × WlAccumulator F))
      → pods_in (lookup wl_key (accumulate groups wls))
        ≡ pods_among wl_key (pods_in (lookup wl_key wls)) groups
  unfolding accumulate
  accumulate_pods wl_key [] wls = refl
  accumulate_pods wl_key ((key, g) ∷ groups) wls =
      accumulate_pods wl_key groups (absorb key g.anomalies (member_of g.anomalies) wls)
      ∙ ap (λ pods. pods_among wl_key pods groups)
          (absorb_at wl_key key g.anomalies (member_of g.anomalies) wls).0

  keys_stay :
      (wl_key other : String) (groups : List (String × Group F))
      (wls : List (String × WlAccumulator F))
      → contains (keys_in (lookup wl_key wls)) other ≡ true
      → contains (keys_in (lookup wl_key (accumulate groups wls))) other ≡ true
  unfolding accumulate
  keys_stay wl_key other [] wls h = h
  keys_stay wl_key other ((key, g) ∷ groups) wls h =
      keys_stay wl_key other groups (absorb key g.anomalies (member_of g.anomalies) wls) (
        ap (λ keys. contains keys other)
          (absorb_at wl_key key g.anomalies (member_of g.anomalies) wls).1
        ∙ kept_key wl_key key other (member_of g.anomalies) _ h)

  -- the accumulator of the workload of a group holds the key of the group
  abbrev pub IsListed : List (String × WlAccumulator F) → String × Group F → Type 0
  IsListed wls e =
      (m : Member)
      → member_of e.1.anomalies ≡ some m
      → contains (keys_in (lookup m.wl_key wls)) e.0 ≡ true

  pub accumulate-IsListed :
      (groups : List (String × Group F)) (wls : List (String × WlAccumulator F))
      → All (IsListed (accumulate groups wls)) groups
  unfolding accumulate
  accumulate-IsListed [] wls = tt
  accumulate-IsListed ((key, g) ∷ groups) wls =
      let next = absorb key g.anomalies (member_of g.anomalies) wls in
      (
        λ m is_member. keys_stay m.wl_key key groups next (
            ap (λ keys. contains keys key)
              (absorb_at m.wl_key key g.anomalies (member_of g.anomalies) wls).1
            ∙ ap (λ o. contains (with_key m.wl_key key o (keys_in (lookup m.wl_key wls))) key)
                is_member
            ∙ own_key m.wl_key key m (keys_in (lookup m.wl_key wls))
                ((eq_iff m.wl_key m.wl_key).1 refl)),
        accumulate-IsListed groups next,
      )

  module _ (min_pods : ℕ) where
    -- the keys of all accumulators with enough pods are among the keys
    abbrev pub AreTaken : List (String × WlAccumulator F) → List String → Type 0
    AreTaken wls keys =
        (wl_key key : String) (acc : WlAccumulator F)
        → lookup wl_key wls ≡ some acc
        → leb min_pods (length acc.pods) ≡ true
        → contains acc.pod_keys key ≡ true
        → contains keys key ≡ true

    pub AreTaken-promoted :
        (k : String) (acc : WlAccumulator F) (wls : List (String × WlAccumulator F))
        (keys : List String)
        → AreTaken wls keys
        → AreTaken ((k, acc) ∷ wls) (acc.pod_keys ++ keys)
    unfolding lookup
    AreTaken-promoted k acc wls keys h wl_key key found e many held =
        rw (contains-append acc.pod_keys keys key) (elim (Bool-cases (k == wl_key)) [
          | inl same ↦
              let it : acc ≡ found = some-injective _ _ (rw same at e) in
              rw (ap (λ a. contains a.pod_keys key) it ∙ held) refl
          | inr other ↦ ground (arith, h wl_key key found (rw other at e) many held)
        ])

    pub AreTaken-passed :
        (k : String) (acc : WlAccumulator F) (wls : List (String × WlAccumulator F))
        (keys : List String)
        → leb min_pods (length acc.pods) ≡ false
        → AreTaken wls keys
        → AreTaken ((k, acc) ∷ wls) keys
    unfolding lookup
    AreTaken-passed k acc wls keys few h wl_key key found e many held =
        elim (Bool-cases (k == wl_key)) [
          | inl same ↦
              let it : acc ≡ found = some-injective _ _ (rw same at e) in
              cc (ap (λ a. leb min_pods (length a.pods)) it, many, few)
          | inr other ↦ h wl_key key found (rw other at e) many held
        ]

    -- The key of a group that takes part in patterns for a workload is absorbed, or the groups hold
    -- fewer distinct pods of that workload than the minimum.
    abbrev pub IsSettled : List (String × Group F) → List String → String → Option Member → Type 0
    IsSettled groups absorbed key none = Unit
    IsSettled groups absorbed key (some m) =
        (contains absorbed key ≡ true) ⊎ (length (pods_among m.wl_key [] groups) < min_pods)

    module _ (groups : List (String × Group F)) (absorbed : List String)
        (taken : AreTaken (accumulate groups []) absorbed) where
      settle :
          (key : String) (m : Member) (found : Option (WlAccumulator F))
          → lookup m.wl_key (accumulate groups []) ≡ found
          → contains (keys_in found) key ≡ true
          → pods_in found ≡ pods_among m.wl_key [] groups
          → IsSettled groups absorbed key (some m)
      unfolding contains
      settle key m none e held pods = cc held
      settle key m (some acc) e held pods = elim (Bool-cases (leb min_pods (length acc.pods))) [
        | inl many ↦ inl (taken m.wl_key key acc e many held)
        | inr few ↦ inr (rw (← pods) (ground (arith, few)))
      ]

      settle_member :
          (e : String × Group F) (o : Option Member)
          → member_of e.1.anomalies ≡ o
          → IsListed (accumulate groups []) e
          → IsSettled groups absorbed e.0 o
      settle_member e none is_member listed = tt
      settle_member e (some m) is_member listed =
          settle e.0 m (lookup m.wl_key (accumulate groups [])) refl (listed m is_member)
            (unfold lookup in accumulate_pods m.wl_key groups [])

      pub All-IsSettled : All (λ e. IsSettled groups absorbed e.0 (member_of e.1.anomalies)) groups
      All-IsSettled =
          All-implies _ _ groups (λ e. settle_member e (member_of e.1.anomalies) refl)
            (accumulate-IsListed groups [])
