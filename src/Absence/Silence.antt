-- ===== src/Absence/Silence.antt =====
-- controller/internal/absence/tracker.go: when `Check` reports a series that `RecordSample` saw.
use anomaly_detection.Prelude.{
  ℕ, ◌-◌, ◌≡◌, refl, sym, ap, ◌∙◌, String, Bool, true, false, not, ◌&&◌, Option, none, some, List,
  [], ◌∷◌, ◌==◌, ltb, count_if, All, arith, eq_iff, Bool-cases, inl, inr, if◌then◌else◌,
}
use mathlib.Core.Path.{subst}
use anomaly_detection.Labels.{Labels, lookup, insert, lookup-insert}
use anomaly_detection.Absence.{
  AbsenceAlert, SeriesState, Tracker, is_suppressed, seen_again, record_sample, silence_alert,
  check_series, check,
}

module _ (print_series : String → Labels → String) where
  -- each entry stands under the key of its own series, and no key twice
  abbrev pub IsTracked : List (String × SeriesState) → Type 0
  IsTracked [] = Unit
  IsTracked (e ∷ rest) =
      (e.0 ≡ print_series e.1.metric e.1.labels)
      × All (λ f. (f.0 == e.0) ≡ false) rest
      × IsTracked rest

  insert-fresh :
      (k j : String) (s : SeriesState) (series : List (String × SeriesState))
      → (k == j) ≡ false
      → All (λ (f : String × SeriesState). (f.0 == j) ≡ false) series
      → All (λ (f : String × SeriesState). (f.0 == j) ≡ false) (insert k s series)
  unfolding insert
  insert-fresh k j s [] e h = (e, tt)
  insert-fresh k j s ((i, w) ∷ series) e h = elim (Bool-cases (i == k)) [
    | inl same ↦ rw same (e, h.1)
    | inr other ↦ rw other (h.0, insert-fresh k j s series e h.1)
  ]

  insert-IsTracked :
      (k : String) (s : SeriesState) (series : List (String × SeriesState))
      → k ≡ print_series s.metric s.labels
      → IsTracked series
      → IsTracked (insert k s series)
  unfolding insert
  insert-IsTracked k s [] own h = (own, tt, tt)
  insert-IsTracked k s ((i, w) ∷ series) own h = elim (Bool-cases (i == k)) [
    | inl same ↦ rw same (own, rw (sym ((eq_iff i k).0 same)) h.1, h.2)
    | inr other ↦ rw other (
      h.0,
      insert-fresh k i s series (ground (arith, eq_iff i k, eq_iff k i)) h.1,
      insert-IsTracked k s series own h.2,
    )
  ]

  lookup-IsTracked :
      (k : String) (s : SeriesState) (series : List (String × SeriesState))
      → lookup k series ≡ some s
      → IsTracked series
      → k ≡ print_series s.metric s.labels
  unfolding lookup
  lookup-IsTracked k s [] e h = cc
  lookup-IsTracked k s ((i, w) ∷ series) e h = elim (Bool-cases (i == k)) [
    | inl same ↦
        let same_state : some w ≡ some s = rw same at e in
        let at_key : i ≡ k = (eq_iff i k).0 same in
        let own : i ≡ print_series w.metric w.labels = h.0 in cc
    | inr other ↦ lookup-IsTracked k s series (rw other at e) h.2
  ]

  -- the state that a series has behind `RecordSample`
  abbrev pub state_after : String → Labels → ℕ → Tracker → SeriesState
  state_after metric labels now t =
      seen_again (lookup (print_series metric labels) t.series) metric labels now

  seen_again-own :
      (metric : String) (labels : Labels) (now : ℕ) (series : List (String × SeriesState))
      (o : Option SeriesState)
      → lookup (print_series metric labels) series ≡ o
      → IsTracked series
      → print_series metric labels
        ≡ print_series
            (seen_again o metric labels now).metric
            (seen_again o metric labels now).labels
  seen_again-own metric labels now series none e h = refl
  seen_again-own metric labels now series (some s) e h =
      lookup-IsTracked (print_series metric labels) s series e h

  module _ (t : Tracker) (now : ℕ) where
    -- a series with this state has been silent for too long, and is not suppressed
    abbrev pub is_silent : SeriesState → Bool
    is_silent s = ltb t.cfg.silence_threshold (now - s.last_seen) && not (is_suppressed t s.labels)

    abbrev alerts_of : Option SeriesState → ℕ
    alerts_of none = 0
    alerts_of (some s) = if is_silent s then 1 else 0

    abbrev is_for : String → AbsenceAlert → Bool
    is_for key a = a.series_key == key

    none_for :
        (key : String) (series : List (String × SeriesState))
        → All (λ (f : String × SeriesState). (f.0 == key) ≡ false) series
        → IsTracked series
        → count_if (is_for key) (check_series print_series t now series) ≡ 0
    unfolding check_series silence_alert
    none_for key [] h w = refl
    none_for key ((i, s) ∷ series) h w =
        let rest = none_for key series h.1 w.2 in
        let other : (print_series s.metric s.labels == key) ≡ false =
          subst (λ (x : String). (x == key) ≡ false) w.0 h.0 in
        ground (arith, rest, other)

    count_if-check_series :
        (key : String) (series : List (String × SeriesState))
        → IsTracked series
        → count_if (is_for key) (check_series print_series t now series)
          ≡ alerts_of (lookup key series)
    unfolding check_series silence_alert lookup
    count_if-check_series key [] w = refl
    count_if-check_series key ((i, s) ∷ series) w = elim (Bool-cases (i == key)) [
      | inl same ↦
          let rest =
            none_for key series
              (subst (λ (x : String). All (λ (f : String × SeriesState). (f.0 == x) ≡ false) series)
                ((eq_iff i key).0 same) w.1)
              w.2 in
          let own : (print_series s.metric s.labels == key) ≡ true =
            subst (λ (x : String). (x == key) ≡ true) w.0 same in
          ground (arith, rest, own, same)
      | inr other ↦
          let rest = count_if-check_series key series w.2 in
          let foreign : (print_series s.metric s.labels == key) ≡ false =
            subst (λ (x : String). (x == key) ≡ false) w.0 other in
          ground (arith, rest, foreign, other)
    ]

    -- the detector is enabled, and past its grace period
    abbrev pub is_on : Bool
    is_on = t.cfg.enabled && not (ltb (now - t.started_at) t.cfg.startup_grace)

    count_if-check :
        (key : String)
        → IsTracked t.series
        → count_if (is_for key) (check print_series t now)
          ≡ (if is_on then alerts_of (lookup key t.series) else 0)
    unfolding check
    count_if-check key w = ground (arith, count_if-check_series key t.series w)

  nested :
      (b c : Bool) (x y : ℕ) → (if b then (if c then x else y) else y) ≡ (if b && c then x else y)
  nested true c x y = refl
  nested false c x y = refl

  seen_again-last :
      (o : Option SeriesState) (metric : String) (labels : Labels) (now : ℕ)
      → (seen_again o metric labels now).last_seen ≡ now
  seen_again-last none metric labels now = refl
  seen_again-last (some s) metric labels now = refl

  looked_up :
      (k : String) (s : SeriesState) (series : List (String × SeriesState))
      → lookup k (insert k s series) ≡ some s
  looked_up k s series =
      let same : (k == k) ≡ true = (eq_iff k k).1 refl in
      lookup-insert k k s series ∙ ap (λ b. if b then some s else lookup k series) same

  -- Of a tracker whose entries stand under their own keys: `RecordSample` keeps that; a later
  -- `Check` then holds one alert for the series exactly if the detector is enabled, the grace
  -- period is over, more than the threshold has passed since the sample, and its namespace is not
  -- suppressed, and else none; and the alerts for any other series are those of before.
  pub check-record_sample :
      (metric : String) (labels : Labels) (seen now : ℕ) (t : Tracker)
      → IsTracked t.series
      → let t' = record_sample print_series metric labels seen t in
        let key = print_series metric labels in
        let on = t.cfg.enabled && not (ltb (now - t.started_at) t.cfg.startup_grace) in
        IsTracked t'.series
        × (count_if (λ a. a.series_key == key) (check print_series t' now) ≡ (
            if on
              && (ltb t.cfg.silence_threshold (now - seen)
                  && not (is_suppressed t (state_after metric labels seen t).labels))
            then 1
            else 0))
        × ((other : String)
            → (key == other) ≡ false
            → count_if (λ a. a.series_key == other) (check print_series t' now)
              ≡ count_if (λ a. a.series_key == other) (check print_series t now))
  unfolding record_sample is_suppressed
  check-record_sample metric labels seen now t w =
      let key = print_series metric labels in
      let s = state_after metric labels seen t in
      let series' = insert key s t.series in
      let t' = record_sample print_series metric labels seen t in
      let w' =
        insert-IsTracked key s t.series
          (seen_again-own metric labels seen t.series (lookup key t.series) refl w) w in
      (
        w',
        count_if-check t' now key w'
            ∙ ap (λ o. if is_on t now then alerts_of t' now o else 0) (looked_up key s t.series)
            ∙ nested (is_on t now) (is_silent t' now s) 1 0
            ∙ ap
                (λ (x : ℕ).
                  if is_on t now
                    && (ltb t.cfg.silence_threshold (now - x) && not (is_suppressed t s.labels))
                  then 1
                  else 0)
                (seen_again-last (lookup key t.series) metric labels seen),
        λ other h.
            count_if-check t' now other w'
            ∙ ap (λ o. if is_on t now then alerts_of t' now o else 0)
                (lookup-insert key other s t.series
                  ∙ ap (λ b. if b then some s else lookup other t.series) h)
            ∙ sym (count_if-check t now other w),
      )
