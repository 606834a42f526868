-- ===== src/Correlation/Correlator/Patterns/Absorbed.antt =====
-- controller/internal/correlation/correlator.go: each key that an accumulator of
-- `detectWorkloadPatterns` holds is that of a group with a pod of its workload.
use anomaly_detection.Prelude.{
  ◌≡◌, refl, ap, ◌∙◌, String, true, Option, none, some, List, [], ◌∷◌, All, All-append, All-implies,
  All-among, Any, Any-implies, arith, eq_iff,
}
use anomaly_detection.Labels.{lookup, contains, All-insert, All-lookup}
use anomaly_detection.Baseline.Keys.{insert_string, sort_strings}
use anomaly_detection.Correlation.Correlator.{
  Group, CorrelatedAlert, extract_workload_from_key, add_to_set,
}
use anomaly_detection.Correlation.Correlator.Patterns.{
  WlAccumulator, Member, member_of, accumulator, enlarged, absorb, accumulate,
}

contains-insert_string :
    (x : String) (xs : List String) (k : String)
    → contains (insert_string x xs) k ≡ contains (x ∷ xs) k
unfolding contains insert_string
contains-insert_string x [] k = refl
contains-insert_string x (y ∷ ys) k = ground (arith, contains-insert_string x ys k)

-- sorting changes no set
pub contains-sort_strings :
    (xs : List String) (k : String) → contains (sort_strings xs) k ≡ contains xs k
unfolding contains sort_strings
contains-sort_strings [] k = refl
contains-sort_strings (x ∷ xs) k =
    ground (arith, contains-insert_string x (sort_strings xs) k, contains-sort_strings xs k)

contains-new : (x : String) (set : List String) → contains (add_to_set x set) x ≡ true
unfolding contains
contains-new x set = ground (arith, eq_iff x x)

contains-old :
    (x k : String) (set : List String)
    → contains set k ≡ true
    → contains (add_to_set x set) k ≡ true
unfolding contains
contains-old x k set h = ground (arith, h)

module _ {F : Type 0} where
  -- some group has the key, takes part in patterns for the workload, and its pod is among the pods
  abbrev pub Backs : List (String × Group F) → String → List String → String → Type 0
  Backs groups wl_key pods key =
      Any
        (λ (e : String × Group F).
          (e.0 ≡ key)
          × (m : Member) × (member_of e.1.anomalies ≡ some m)
          × (m.wl_key ≡ wl_key)
          × (contains pods m.pod ≡ true))
        groups

  module _ (groups : List (String × Group F)) where
    -- the accumulator of a workload holds the keys of groups with pods of it that it lists
    abbrev pub IsBacked : String × WlAccumulator F → Type 0
    IsBacked (wl_key, acc) = All (Backs groups wl_key acc.pods) acc.pod_keys

    Backs-more :
        (wl_key x : String) (pods : List String) (key : String)
        → Backs groups wl_key pods key
        → Backs groups wl_key (add_to_set x pods) key
    Backs-more wl_key x pods key = Any-implies _ _ groups (λ e (same, m, is_member, its, held).
        (same, m, is_member, its, contains-old x m.pod pods held))

    enlarged-IsBacked :
        (m : Member) (acc : WlAccumulator F) (key : String) (g : Group F)
        → Any (λ (e : String × Group F). e ≡ (key, g)) groups
        → member_of g.anomalies ≡ some m
        → IsBacked (m.wl_key, acc)
        → IsBacked (m.wl_key, enlarged acc m key g.anomalies)
    enlarged-IsBacked m acc key g among is_member h =
        All-append (Backs groups m.wl_key (add_to_set m.pod acc.pods)) acc.pod_keys (key ∷ [])
          (All-implies _ _ acc.pod_keys (λ k. Backs-more m.wl_key m.pod acc.pods k) h)
          (
            Any-implies _ _ groups
                (λ e same. (
                  ap (λ (f : String × Group F). f.0) same,
                  m,
                  ap (λ (f : String × Group F). member_of f.1.anomalies) same ∙ is_member,
                  refl,
                  contains-new m.pod acc.pods,
                ))
                among,
            tt,
          )

    accumulator-IsBacked :
        (m : Member) (old : Option (WlAccumulator F)) (wls : List (String × WlAccumulator F))
        → lookup m.wl_key wls ≡ old
        → All IsBacked wls
        → IsBacked (m.wl_key, accumulator old m)
    accumulator-IsBacked m none wls e h = tt
    accumulator-IsBacked m (some acc) wls e h = All-lookup IsBacked m.wl_key acc wls h e

    absorb-IsBacked :
        (key : String) (g : Group F) (m : Option Member) (wls : List (String × WlAccumulator F))
        → Any (λ (e : String × Group F). e ≡ (key, g)) groups
        → member_of g.anomalies ≡ m
        → All IsBacked wls
        → All IsBacked (absorb key g.anomalies m wls)
    unfolding absorb
    absorb-IsBacked key g none wls among is_member h = h
    absorb-IsBacked key g (some m) wls among is_member h =
        All-insert IsBacked m.wl_key _ wls
          (enlarged-IsBacked m (accumulator (lookup m.wl_key wls) m) key g among is_member
            (accumulator-IsBacked m (lookup m.wl_key wls) wls refl h))
          h

    accumulate-IsBacked :
        (es : List (String × Group F)) (wls : List (String × WlAccumulator F))
        → All (λ (x : String × Group F). Any (λ e. e ≡ x) groups) es
        → All IsBacked wls
        → All IsBacked (accumulate es wls)
    unfolding accumulate
    accumulate-IsBacked [] wls among h = h
    accumulate-IsBacked ((key, g) ∷ es) wls among h =
        accumulate-IsBacked es (absorb key g.anomalies (member_of g.anomalies) wls) among.1
          (absorb-IsBacked key g (member_of g.anomalies) wls among.0 refl h)

    pub found-IsBacked : All IsBacked (accumulate groups [])
    found-IsBacked = accumulate-IsBacked groups [] (All-among groups) tt

module _ {F E : Type 0} where
  -- the key is that of a group, of whose workload an alert is raised that lists its pod
  abbrev pub IsAbsorbed : List (String × Group F) → List (CorrelatedAlert F E) → String → Type 0
  IsAbsorbed groups alerts key =
      Any
        (λ a.
          Any
            (λ (e : String × Group F).
              (e.0 ≡ key)
              × (m : Member) × (member_of e.1.anomalies ≡ some m)
              × (a.workload ≡ extract_workload_from_key m.wl_key)
              × (contains a.affected_pods m.pod ≡ true))
            groups)
        alerts
