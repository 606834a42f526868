-- ===== src/Correlation/Correlator/Pending.antt =====
-- controller/internal/correlation/correlator.go: `Add`, and the first step of `Flush`, over the map
-- of pending groups. The mutex makes each of the two one step.
use anomaly_detection.Prelude.{
  ℕ, ◌+◌, ◌<◌, ◌≤◌, ◌≡◌, refl, String, Bool, not, Option, none, some, List, [], ◌∷◌, ◌++◌, ◌==◌,
  length, length-append, count_if, select, All, leb, arith, Bool-cases, inl, inr, eq_iff,
  if◌then◌else◌,
}
use anomaly_detection.Labels.{lookup, insert}
use anomaly_detection.Detection.{Anomaly}
use anomaly_detection.Correlation.Correlator.{Group, workload_key}

module _ {F : Type 0} where
  -- the group that an anomaly joins, or the new one
  abbrev joined : Option (Group F) → ℕ → Anomaly F → Group F
  joined none now a = record { anomalies = a ∷ []; first_seen = now }
  joined (some g) now a = record g { anomalies = g.anomalies ++ (a ∷ []) }

  -- `Add`
  unfoldable pub add : Anomaly F → ℕ → List (String × Group F) → List (String × Group F)
  add a now pending =
      let key = workload_key a in insert key (joined (lookup key pending) now a) pending

  -- now.Sub(g.firstSeen) >= c.window
  abbrev pub is_ready : ℕ → ℕ → String × Group F → Bool
  is_ready window now e = leb (e.1.first_seen + window) now

  -- the groups that leave `pending`, and those that stay
  unfoldable pub ready_groups : ℕ → ℕ → List (String × Group F) → List (String × Group F)
  ready_groups window now pending = select (is_ready window now) pending

  unfoldable pub still_pending : ℕ → ℕ → List (String × Group F) → List (String × Group F)
  still_pending window now pending = select (λ e. not (is_ready window now e)) pending

  -- how many of the anomalies in the groups pass a test
  abbrev pub waiting : (Anomaly F → Bool) → List (String × Group F) → ℕ
  waiting q [] = 0
  waiting q ((k, g) ∷ rest) = count_if q g.anomalies + waiting q rest

  -- a group holds anomalies, all of them with its key
  abbrev pub IsKeyed : String × Group F → Type 0
  IsKeyed e = (0 < length e.1.anomalies) × All (λ a. workload_key a ≡ e.0) e.1.anomalies

  All-snoc :
      (P : Anomaly F → Type 0) (xs : List (Anomaly F)) (a : Anomaly F)
      → All P xs
      → P a
      → All P (xs ++ (a ∷ []))
  All-snoc P [] a h p = (p, tt)
  All-snoc P (x ∷ xs) a h p = (h.0, All-snoc P xs a h.1 p)

  count_if-snoc :
      (q : Anomaly F → Bool) (xs : List (Anomaly F)) (a : Anomaly F)
      → count_if q (xs ++ (a ∷ [])) ≡ count_if q xs + (if q a then 1 else 0)
  count_if-snoc q [] a = ground arith
  count_if-snoc q (x ∷ xs) a = ground (arith, count_if-snoc q xs a)

  insert-joined :
      (key : String) (a : Anomaly F) (now : ℕ) (o : Option (Group F))
      (pending : List (String × Group F))
      → lookup key pending ≡ o
      → workload_key a ≡ key
      → All IsKeyed pending
      → All IsKeyed (insert key (joined o now a) pending)
        × ((q : Anomaly F → Bool)
            → waiting q (insert key (joined o now a) pending)
              ≡ waiting q pending + (if q a then 1 else 0))
  unfolding insert lookup
  insert-joined key a now none [] p e h = (((omega arith, (e, tt)), tt), λ q. ground arith)
  insert-joined key a now (some g) [] p e h = cc
  insert-joined key a now o ((k, g) ∷ rest) p e h = elim (Bool-cases (k == key)) [
    | inl same ↦
        let at : some g ≡ o = rw same at p in
        rw (same, ← at)
          (
            (
              (
                omega (arith, length-append {0} g.anomalies (a ∷ [])),
                All-snoc (λ b. workload_key b ≡ key) g.anomalies a
                    (rw ((eq_iff k key).0 same) at h.0.1) e,
              ),
              h.1,
            ),
            λ q. omega (arith, count_if-snoc q g.anomalies a),
          )
    | inr other ↦
        let (keyed, counts) = insert-joined key a now o rest (rw other at p) e h.1 in
        rw other ((h.0, keyed), λ q. omega (arith, counts q))
  ]

  -- `Add` puts the anomaly into one group and loses none: for every test, the groups then hold one
  -- anomaly more that passes it if the new one does, and else as many as before. All groups stay
  -- non-empty, with anomalies of their own key only.
  pub add_keeps :
      (a : Anomaly F) (now : ℕ) (pending : List (String × Group F))
      → All IsKeyed pending
      → All IsKeyed (add a now pending)
        × ((q : Anomaly F → Bool)
            → waiting q (add a now pending) ≡ waiting q pending + (if q a then 1 else 0))
  unfolding add
  add_keeps a now pending h =
      insert-joined (workload_key a) a now (lookup (workload_key a) pending) pending refl refl h

  All-select :
      (p : String × Group F → Bool) (es : List (String × Group F))
      → All IsKeyed es
      → All IsKeyed (select p es)
  All-select p [] h = h
  All-select p (e ∷ es) h = elim (Bool-cases (p e)) [
    | inl x ↦ rw x (h.0, All-select p es h.1)
    | inr x ↦ rw x (All-select p es h.1)
  ]

  All-ready :
      (window now : ℕ) (es : List (String × Group F))
      → All (λ e. e.1.first_seen + window ≤ now) (select (is_ready window now) es)
        × All (λ e. now < e.1.first_seen + window) (select (λ e. not (is_ready window now e)) es)
  All-ready window now [] = (tt, tt)
  All-ready window now (e ∷ es) = ground (arith, All-ready window now es)

  waiting-split :
      (p : String × Group F → Bool) (q : Anomaly F → Bool) (es : List (String × Group F))
      → waiting q (select p es) + waiting q (select (λ e. not (p e)) es) ≡ waiting q es
  waiting-split p q [] = omega arith
  waiting-split p q (e ∷ es) = ground (arith, waiting-split p q es)

  -- The first step of `Flush` takes exactly the groups whose window has passed, and splits the
  -- pending anomalies between the groups that it takes and those that stay; both are well keyed.
  pub ready_groups_split :
      (window now : ℕ) (pending : List (String × Group F))
      → All IsKeyed pending
      → let ready = ready_groups window now pending in
        let rest = still_pending window now pending in
        All IsKeyed ready
        × All IsKeyed rest
        × All (λ e. e.1.first_seen + window ≤ now) ready
        × All (λ e. now < e.1.first_seen + window) rest
        × ((q : Anomaly F → Bool) → waiting q ready + waiting q rest ≡ waiting q pending)
  unfolding ready_groups still_pending
  ready_groups_split window now pending h =
      let (due, early) = All-ready window now pending in
      (
        All-select _ pending h,
        All-select _ pending h,
        due,
        early,
        λ q. waiting-split (is_ready window now) q pending,
      )
