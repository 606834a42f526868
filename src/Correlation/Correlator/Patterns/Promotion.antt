-- ===== src/Correlation/Correlator/Patterns/Promotion.antt =====
-- controller/internal/correlation/correlator.go: `detectWorkloadPatterns` does not panic, and what
-- it promotes.
use anomaly_detection.Prelude.{
  ℕ, suc, ◌≤◌, ◌<◌, ◌≡◌, refl, String, Option, none, some, List, [], ◌∷◌, ◌++◌, ◌==◌, length,
  length-append, All, All-append, All-implies, Any-implies, sym, ap, ◌∙◌, leb, leb→le, arith,
  Bool-cases, inl, inr,
}
use anomaly_detection.Labels.{insert, lookup, contains}
use anomaly_detection.Detection.{Anomaly}
use anomaly_detection.Baseline.Keys.{insert_string, sort_strings}
use anomaly_detection.Correlation.Correlator.{
  Group, CorrelatedAlert, workload_alert, extract_workload_from_key,
}
use anomaly_detection.Correlation.Correlator.Patterns.{
  WlAccumulator, Member, member_of, absorb, accumulate, workload_alert_of, promote, promote_all,
  detect_workload_patterns,
}
use anomaly_detection.Correlation.Correlator.Patterns.Counted.{
  AreTaken, AreTaken-promoted, AreTaken-passed, IsSettled, All-IsSettled,
}
use anomaly_detection.Correlation.Correlator.Patterns.Absorbed.{
  Backs, IsBacked, IsAbsorbed, found-IsBacked, contains-sort_strings,
}

length-insert_string :
    (x : String) (xs : List String) → length (insert_string x xs) ≡ suc (length xs)
unfolding insert_string
length-insert_string x [] = refl
length-insert_string x (y ∷ ys) = ground (arith, length-insert_string x ys)

pub length-sort_strings : (xs : List String) → length (sort_strings xs) ≡ length xs
unfolding sort_strings
length-sort_strings [] = refl
length-sort_strings (x ∷ xs) =
    omega (arith, length-insert_string x (sort_strings xs), length-sort_strings xs)

module _ {F : Type 0} where
  -- a group, or an accumulator, holds anomalies
  abbrev pub IsFilled : String × Group F → Type 0
  IsFilled e = 0 < length e.1.anomalies

  abbrev IsFed : String × WlAccumulator F → Type 0
  IsFed e = 0 < length e.1.anomalies

  insert-IsFed :
      (k : String) (acc : WlAccumulator F) (wls : List (String × WlAccumulator F))
      → 0 < length acc.anomalies
      → All IsFed wls
      → All IsFed (insert k acc wls)
  unfolding insert
  insert-IsFed k acc [] p h = (p, tt)
  insert-IsFed k acc ((j, w) ∷ wls) p h = elim (Bool-cases (j == k)) [
    | inl e ↦ rw e (p, h.1)
    | inr e ↦ rw e (h.0, insert-IsFed k acc wls p h.1)
  ]

  longer : (ys xs : List (Anomaly F)) → 0 < length ys → 0 < length (xs ++ ys)
  longer ys xs p = omega (arith, length-append {0} xs ys)

  absorb-IsFed :
      (key : String) (anomalies : List (Anomaly F)) (m : Option Member)
      (wls : List (String × WlAccumulator F))
      → 0 < length anomalies
      → All IsFed wls
      → All IsFed (absorb key anomalies m wls)
  unfolding absorb
  absorb-IsFed key anomalies none wls p h = h
  absorb-IsFed key anomalies (some m) wls p h = insert-IsFed m.wl_key _ wls (longer anomalies _ p) h

  accumulate-IsFed :
      (groups : List (String × Group F)) (wls : List (String × WlAccumulator F))
      → All IsFilled groups
      → All IsFed wls
      → All IsFed (accumulate groups wls)
  unfolding accumulate
  accumulate-IsFed [] wls g h = h
  accumulate-IsFed ((key, gr) ∷ groups) wls g h =
      accumulate-IsFed groups (absorb key gr.anomalies (member_of gr.anomalies) wls) g.1
        (absorb-IsFed key gr.anomalies (member_of gr.anomalies) wls g.0 h)

  module _ {E : Type 0} (min_pods : ℕ) where
    -- an alert for a workload of which enough distinct pods are affected
    abbrev pub IsPattern : CorrelatedAlert F E → Type 0
    IsPattern a =
        (a.kind ≡ workload_alert)
        × (a.affected_replicas ≡ length a.affected_pods)
        × (min_pods ≤ a.affected_replicas)

    -- the promotion behind the index into the anomalies
    promote_found :
        (k : String) (acc : WlAccumulator F) (found : List (Anomaly F))
        → acc.anomalies ≡ found
        → 0 < length found
        → (rep : Anomaly F) × (promote {E = E} k acc ≡ some (workload_alert_of k acc rep))
    unfolding promote
    promote_found k acc [] e p = absurd (omega arith)
    promote_found k acc (rep ∷ rest) e p = (rep, rw e refl)

    promote_total :
        (k : String) (acc : WlAccumulator F)
        → 0 < length acc.anomalies
        → min_pods ≤ length acc.pods
        → (a : CorrelatedAlert F E) × (promote k acc ≡ some a)
          × IsPattern a
          × (a.workload ≡ extract_workload_from_key k)
          × (a.affected_pods ≡ sort_strings acc.pods)
    unfolding workload_alert_of
    promote_total k acc p q =
        let (rep, made) = promote_found k acc acc.anomalies refl p in
        (
          workload_alert_of k acc rep,
          made,
          (refl, refl, omega (arith, length-sort_strings acc.pods)),
          refl,
          refl,
        )

    IsAbsorbed-promoted :
        (groups : List (String × Group F)) (k : String) (acc : WlAccumulator F)
        (a : CorrelatedAlert F E) (alerts : List (CorrelatedAlert F E))
        → a.workload ≡ extract_workload_from_key k
        → a.affected_pods ≡ sort_strings acc.pods
        → IsBacked groups (k, acc)
        → All (IsAbsorbed groups (a ∷ alerts)) acc.pod_keys
    IsAbsorbed-promoted groups k acc a alerts named listed =
        All-implies (Backs groups k acc.pods) (IsAbsorbed groups (a ∷ alerts)) acc.pod_keys
          (λ key h. inl (
            Any-implies _ _ groups
              (λ e (same, m, is_member, its, held). (
                same,
                m,
                is_member,
                named ∙ ap extract_workload_from_key (sym its),
                ap (λ pods. contains pods m.pod) listed
                    ∙ contains-sort_strings acc.pods m.pod
                    ∙ held,
              ))
              h))

    promote_all_total :
        (groups : List (String × Group F)) (wls : List (String × WlAccumulator F))
        → All IsFed wls
        → All (IsBacked groups) wls
        → (r : List (CorrelatedAlert F E) × List String) × (promote_all min_pods wls ≡ some r)
          × All IsPattern r.0
          × All (IsAbsorbed groups r.0) r.1
          × AreTaken min_pods wls r.1
    unfolding promote_all lookup
    promote_all_total groups [] h b = (([], []), refl, tt, tt, λ k key acc e many held. cc e)
    promote_all_total groups ((k, acc) ∷ wls) h b =
        let (r, done, fine, taken, all) = promote_all_total groups wls h.1 b.1 in
        elim (Bool-cases (leb min_pods (length acc.pods))) [
          | inl e ↦
              let (a, made, good, named, listed) =
                promote_total k acc h.0 (leb→le min_pods (length acc.pods) e) in
              rw (e, made, done)
                (
                  (a ∷ r.0, acc.pod_keys ++ r.1),
                  refl,
                  (good, fine),
                  All-append (IsAbsorbed groups (a ∷ r.0)) acc.pod_keys r.1
                      (IsAbsorbed-promoted groups k acc a r.0 named listed b.0)
                      (All-implies (IsAbsorbed groups r.0) (IsAbsorbed groups (a ∷ r.0)) r.1
                        (λ key t. inr t) taken),
                  AreTaken-promoted min_pods k acc wls r.1 all,
                )
          | inr e ↦ rw e (r, done, fine, taken, AreTaken-passed min_pods k acc wls r.1 e all)
        ]

    -- On groups that hold anomalies the search for patterns does not panic, and each alert that it
    -- raises is for a workload, counts the pods that it lists, and counts at least the minimum; each
    -- key that it takes from the pod alerts is that of a group whose pod such an alert lists, and it
    -- takes those of all groups of a workload with at least the minimum of pods.
    pub detect_workload_patterns_total :
        (groups : List (String × Group F))
        → All IsFilled groups
        → (r : List (CorrelatedAlert F E) × List String) × (detect_workload_patterns min_pods groups
            ≡ some r)
          × All IsPattern r.0
          × All (IsAbsorbed groups r.0) r.1
          × All (λ e. IsSettled min_pods groups r.1 e.0 (member_of e.1.anomalies)) groups
    unfolding detect_workload_patterns
    detect_workload_patterns_total groups h =
        let (r, done, fine, taken, all) =
          promote_all_total groups (accumulate groups []) (accumulate-IsFed groups [] h tt)
            (found-IsBacked groups) in
        (r, done, fine, taken, All-IsSettled min_pods groups r.1 all)
