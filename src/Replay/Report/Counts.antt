-- ===== src/Replay/Report/Counts.antt =====
-- controller/internal/replay/report.go: what the counts of a report add up to.
use anomaly_detection.Prelude.{
  ℕ, suc, ◌+◌, ◌-◌, ◌≡◌, refl, true, false, ◌&&◌, sym, ap, ◌∙◌, String, Bool, List, [], ◌∷◌, ◌++◌,
  ◌==◌, map, length, length-append, take, take-nil, count_if, count_if-append, total, total-sort_by,
  nat_beq, ltb, leb, Bool-cases, inl, inr, eq_iff, arith, if◌then◌else◌,
}
use mathlib.Core.List.{append-nil, append_assoc}
use anomaly_detection.Labels.{lookup, lookup-insert}
use anomaly_detection.Detection.{Anomaly}
use anomaly_detection.Replay.Report.{
  Counts, or_zero, bump, TimelineEntry, ReportBuilder, new_report_builder, hour_of, add_to_timeline,
  anomaly_kind, report_key, append_anomaly, is_full, add_anomaly, add_anomalies,
}
use anomaly_detection.Replay.Report.Build.{
  Metadata, no_later, count_by, to_anomaly_entry, build, build_report,
}

-- the count of a key
abbrev pub count_of : String → Counts → ℕ
count_of k m = or_zero (lookup k m)

count_of-bump :
    (j k : String) (m : Counts) → count_of k (bump j m) ≡ count_of k m + (if j == k then 1 else 0)
unfolding bump
count_of-bump j k m = elim (Bool-cases (j == k)) [
  | inl e ↦ rw (lookup-insert j k (suc (count_of j m)) m, e, ← (eq_iff j k).0 e) (omega arith)
  | inr e ↦ rw (lookup-insert j k (suc (count_of j m)) m, e) (omega arith)
]

-- the anomalies that an entry of the timeline counts for an hour
abbrev pub in_hour : ℕ → TimelineEntry → ℕ
in_hour h e = if nat_beq e.hour h then e.anomalies else 0

total-add_to_timeline :
    (hour h : ℕ) (severity : String) (entries : List TimelineEntry)
    → total (in_hour h) (add_to_timeline hour severity entries)
      ≡ total (in_hour h) entries + (if nat_beq hour h then 1 else 0)
unfolding add_to_timeline
total-add_to_timeline hour h severity [] = ground arith
total-add_to_timeline hour h severity (e ∷ entries) =
    ground (arith, total-add_to_timeline hour h severity entries)

module _ {F : Type 0} where
  count_of-count_by :
      (of : Anomaly F → String) (anomalies : List (Anomaly F)) (m : Counts) (k : String)
      → count_of k (count_by of anomalies m) ≡ count_of k m + count_if (λ a. of a == k) anomalies
  unfolding count_by
  count_of-count_by of [] m k = omega arith
  count_of-count_by of (a ∷ anomalies) m k =
      ground (arith, count_of-count_by of anomalies (bump (of a) m) k, count_of-bump (of a) k m)

  counted :
      (of : Anomaly F → String) (anomalies : List (Anomaly F)) (k : String)
      → count_of k (count_by of anomalies []) ≡ count_if (λ a. of a == k) anomalies
  unfolding lookup
  counted of anomalies k = omega (arith, count_of-count_by of anomalies [] k)

  abbrev pub hour_is : ℕ → Anomaly F → Bool
  hour_is h a = nat_beq (hour_of a.timestamp) h

  -- the maps of a builder count the anomalies that it holds
  abbrev pub IsTallied : ReportBuilder F → Type 0
  IsTallied b =
      ((k : String) → count_of k b.workloads ≡ count_if (λ a. report_key a == k) b.anomalies)
      × ((h : ℕ) → total (in_hour h) b.timeline ≡ count_if (hour_is h) b.anomalies)

  append_anomaly-IsTallied :
      (b : ReportBuilder F) (a : Anomaly F) → IsTallied b → IsTallied (append_anomaly b a)
  unfolding append_anomaly
  append_anomaly-IsTallied b a (keys, hours) = (
    λ k. ground (
      arith,
      keys k,
      count_of-bump (report_key a) k b.workloads,
      count_if-append (λ c. report_key c == k) b.anomalies (a ∷ []),
    ),
    λ h. ground (
      arith,
      hours h,
      total-add_to_timeline (hour_of a.timestamp) h a.severity b.timeline,
      count_if-append (hour_is h) b.anomalies (a ∷ []),
    ),
  )

  add_anomaly-IsTallied :
      (b : ReportBuilder F) (a : Anomaly F) → IsTallied b → IsTallied (add_anomaly b a)
  unfolding add_anomaly
  add_anomaly-IsTallied b a h = elim (Bool-cases (is_full b)) [
    | inl e ↦ rw (add_anomaly, e) h
    | inr e ↦ rw (add_anomaly, e) (append_anomaly-IsTallied b a h)
  ]

  add_anomalies-IsTallied :
      (b : ReportBuilder F) (anomalies : List (Anomaly F))
      → IsTallied b
      → IsTallied (add_anomalies b anomalies)
  unfolding add_anomalies
  add_anomalies-IsTallied b [] h = h
  add_anomalies-IsTallied b (a ∷ anomalies) h =
      add_anomalies-IsTallied (add_anomaly b a) anomalies (add_anomaly-IsTallied b a h)

  -- the anomalies that still fit behind those that the report holds; 0 is no limit
  abbrev pub up_to : ℕ → ℕ → List (Anomaly F) → List (Anomaly F)
  up_to max held xs = if nat_beq max 0 then xs else take (max - held) xs

  up_to_full :
      (max held : ℕ) (xs : List (Anomaly F))
      → (ltb 0 max && leb max held) ≡ true
      → up_to max held xs ≡ []
  up_to_full max held xs h =
      let some_max : nat_beq max 0 ≡ false = ground (arith, h) in
      let none_left : max - held ≡ 0 = ground (arith, h) in rw (some_max, none_left) refl

  up_to_room :
      (max held : ℕ) (x : Anomaly F) (xs : List (Anomaly F))
      → (ltb 0 max && leb max held) ≡ false
      → up_to max held (x ∷ xs) ≡ x ∷ up_to max (held + 1) xs
  up_to_room max held x xs h = elim (Bool-cases (nat_beq max 0)) [
    | inl e ↦ rw e refl
    | inr e ↦
        let one_more : max - held ≡ suc (max - (held + 1)) = ground (arith, h, e) in
        rw (e, one_more) refl
  ]

  -- the anomalies that a builder holds, and behind them those of a list that still fit
  abbrev held_and : ReportBuilder F → List (Anomaly F) → List (Anomaly F)
  held_and b xs = b.anomalies ++ up_to b.max_anomalies (length b.anomalies) xs

  held_and-add_anomaly :
      (b : ReportBuilder F) (a : Anomaly F) (xs : List (Anomaly F))
      → held_and (add_anomaly b a) xs ≡ held_and b (a ∷ xs)
  unfolding add_anomaly is_full append_anomaly
  held_and-add_anomaly b a xs =
      let max = b.max_anomalies in
      let held = length b.anomalies in
      elim (Bool-cases (ltb 0 max && leb max held)) [
        | inl e ↦ rw e (
            ap (λ ys. b.anomalies ++ ys)
              (up_to_full max held xs e ∙ sym (up_to_full max held (a ∷ xs) e)))
        | inr e ↦
            rw (e, length-append b.anomalies (a ∷ []))
              (append_assoc b.anomalies (a ∷ []) (up_to max (held + 1) xs)
                ∙ ap (λ ys. b.anomalies ++ ys) (sym (up_to_room max held a xs e)))
      ]

  up_to-nil : (max held : ℕ) → up_to max held [] ≡ []
  up_to-nil max held = elim (Bool-cases (nat_beq max 0)) [
    | inl e ↦ rw e refl
    | inr e ↦ rw e (take-nil (max - held))
  ]

  add_anomalies_kept :
      (b : ReportBuilder F) (anomalies : List (Anomaly F))
      → (add_anomalies b anomalies).anomalies ≡ held_and b anomalies
  unfolding add_anomalies
  add_anomalies_kept b [] = sym (
      ap (λ ys. b.anomalies ++ ys) (up_to-nil b.max_anomalies (length b.anomalies))
      ∙ append-nil b.anomalies)
  add_anomalies_kept b (a ∷ anomalies) =
      add_anomalies_kept (add_anomaly b a) anomalies ∙ held_and-add_anomaly b a anomalies

  build_counts :
      (b : ReportBuilder F) (meta : Metadata F) (kept : List (Anomaly F))
      → IsTallied b
      → b.anomalies ≡ kept
      → let r = build b meta in
        (r.anomalies ≡ map to_anomaly_entry kept)
        × (r.totals.anomalies ≡ length kept)
        × ((k : String) → count_of k r.totals.by_severity ≡ count_if (λ a. a.severity == k) kept)
        × ((k : String) → count_of k r.totals.by_signal ≡ count_if (λ a. a.signal == k) kept)
        × ((k : String) → count_of k r.totals.by_detector ≡ count_if (λ a. a.detector == k) kept)
        × ((k : String) → count_of k r.totals.by_kind ≡ count_if (λ a. anomaly_kind a == k) kept)
        × ((h : ℕ) → total (in_hour h) r.timeline ≡ count_if (hour_is h) kept)
  unfolding build lookup
  build_counts b meta kept tallied held = rw (← held) (
    refl,
    refl,
    counted (λ a. a.severity) b.anomalies,
    counted (λ a. a.signal) b.anomalies,
    counted (λ a. a.detector) b.anomalies,
    counted anomaly_kind b.anomalies,
    λ h. total-sort_by no_later (in_hour h) b.timeline ∙ tallied.1 h,
  )

  -- The report of a list of anomalies holds them in order, up to the limit where there is one, and
  -- counts exactly those that it holds: in all, by severity, signal, detector and kind, and over the
  -- entries of its timeline in every hour.
  pub build_report_counts :
      (anomalies : List (Anomaly F)) (max : ℕ) (meta : Metadata F)
      → let r = build_report anomalies max meta in
        let kept = if nat_beq max 0 then anomalies else take max anomalies in
        (r.anomalies ≡ map to_anomaly_entry kept)
        × (r.totals.anomalies ≡ length kept)
        × ((k : String) → count_of k r.totals.by_severity ≡ count_if (λ a. a.severity == k) kept)
        × ((k : String) → count_of k r.totals.by_signal ≡ count_if (λ a. a.signal == k) kept)
        × ((k : String) → count_of k r.totals.by_detector ≡ count_if (λ a. a.detector == k) kept)
        × ((k : String) → count_of k r.totals.by_kind ≡ count_if (λ a. anomaly_kind a == k) kept)
        × ((h : ℕ) → total (in_hour h) r.timeline ≡ count_if (hour_is h) kept)
  unfolding build_report new_report_builder lookup
  build_report_counts anomalies max meta =
      let start = new_report_builder max in
      let all_left : max - 0 ≡ max = omega arith in
      build_counts (add_anomalies start anomalies) meta
        (if nat_beq max 0 then anomalies else take max anomalies)
        (add_anomalies-IsTallied start anomalies (λ k. refl, λ h. refl))
        (add_anomalies_kept start anomalies
          ∙ ap (λ n. if nat_beq max 0 then anomalies else take n anomalies) all_left)
