-- ===== src/Correlation/Correlator/Finalize/Cooldown.antt =====
-- controller/internal/correlation/correlator.go: `finalize` sends an alert once within the cooldown.
use anomaly_detection.Prelude.{
  ℕ, ◌+◌, ◌≤◌, ◌<◌, ◌≡◌, refl, ap, ◌∙◌, String, Bool, true, false, Option, none, some, List, [],
  ◌∷◌, ◌==◌, eq_iff, count_if, All, arith, Bool-cases, inl, inr,
}
use mathlib.Core.Path.{subst}
use anomaly_detection.Labels.{Labels}
use anomaly_detection.Enrichment.Identity.{Identity}
use anomaly_detection.Detection.{Anomaly}
use anomaly_detection.Correlation.Correlator.{CorrelatedAlert}
use anomaly_detection.Correlation.Correlator.Finalize.{
  DedupStore, fingerprint, enrich, claim_key, finalize, exists_or_false,
}

-- The documented behaviour of SET with a time to live and of EXISTS on a server that is up: a key
-- exists until its time to live is over, and a write leaves the other keys alone.
pub record IsRemembering {D : Type 0} (store : DedupStore D) : Type 0 where
  pub remembers :
      (d : D) (now later : ℕ) (key value : String) (ttl : ℕ)
      → later < now + ttl
      → store.exists (store.set_with_ttl d now key value ttl).0 later key ≡ some true
  pub keeps :
      (d : D) (now later : ℕ) (key other value : String) (ttl : ℕ)
      → (key == other) ≡ false
      → store.exists (store.set_with_ttl d now key value ttl).0 later other
        ≡ store.exists d later other

module _ {D : Type 0} (store : DedupStore D) where
  abbrev seen : ℕ → String → D → Bool
  seen now key d = exists_or_false (store.exists d now key)

  abbrev marked : ℕ → ℕ → String → D → D
  marked cooldown now key d = (store.set_with_ttl d now key "1" cooldown).0

module _ {F E : Type 0} (marshal : Labels → String) (digest : String → String)
    (enricher : Option (Identity → E)) where
  abbrev key_of : CorrelatedAlert F E → String
  key_of = fingerprint marshal digest

  fingerprint-enrich_with :
      (run : Identity → E) (ca : CorrelatedAlert F E) (found : List (Anomaly F))
      → ca.anomalies ≡ found
      → key_of (enrich (some run) ca) ≡ key_of ca
  unfolding enrich fingerprint
  fingerprint-enrich_with run ca [] e = rw e refl
  fingerprint-enrich_with run ca (a ∷ rest) e = rw e refl

  fingerprint-enrich :
      (run : Option (Identity → E)) (ca : CorrelatedAlert F E) → key_of (enrich run ca) ≡ key_of ca
  fingerprint-enrich none ca = unfold enrich in refl
  fingerprint-enrich (some run) ca = fingerprint-enrich_with run ca ca.anomalies refl

  -- how many alerts have a key
  abbrev pub sent : String → List (CorrelatedAlert F E) → ℕ
  sent key alerts = count_if (λ ca. key_of ca == key) alerts

  skipped :
      (ca : CorrelatedAlert F E) (key : String) (alerts : List (CorrelatedAlert F E))
      → (key_of ca == key) ≡ false
      → sent key alerts ≡ 0
      → sent key (ca ∷ alerts) ≡ 0
  skipped ca key alerts other none_sent = rw other none_sent

  module _ {D : Type 0} (store : DedupStore D) (memory : IsRemembering store)
      (cooldown now : ℕ) where
    abbrev out_of : List (CorrelatedAlert F E) → D → List (CorrelatedAlert F E) × D
    out_of alerts d = finalize store key_of enricher cooldown now alerts d

    finalize-seen :
        (ca : CorrelatedAlert F E) (alerts : List (CorrelatedAlert F E)) (d : D)
        → seen store now (key_of ca) d ≡ true
        → out_of (ca ∷ alerts) d ≡ out_of alerts d
    unfolding finalize claim_key
    finalize-seen ca alerts d h = rw h refl

    finalize-fresh :
        (ca : CorrelatedAlert F E) (alerts : List (CorrelatedAlert F E)) (d : D)
        → seen store now (key_of ca) d ≡ false
        → out_of (ca ∷ alerts) d ≡ (
          enrich enricher ca ∷ (out_of alerts (marked store cooldown now (key_of ca) d)).0,
          (out_of alerts (marked store cooldown now (key_of ca) d)).1,
        )
    unfolding finalize claim_key
    finalize-fresh ca alerts d h = rw h refl

    not_it :
        (ca : CorrelatedAlert F E) (key : String) (d : D)
        → store.exists d now key ≡ some true
        → seen store now (key_of ca) d ≡ false
        → (key_of ca == key) ≡ false
    not_it ca key d h e = elim (Bool-cases (key_of ca == key)) [
      | inl same ↦ cc (
        ap (λ (k : String). seen store now k d) ((eq_iff (key_of ca) key).0 same),
        ap exists_or_false h,
        e,
      )
      | inr other ↦ other
    ]

    -- a key that exists is not sent, and exists behind the call at each time at which it did before
    exists-finalize :
        (key : String) (alerts : List (CorrelatedAlert F E)) (d : D)
        → store.exists d now key ≡ some true
        → (sent key (out_of alerts d).0 ≡ 0)
          × ((t : ℕ)
              → store.exists d t key ≡ some true
              → store.exists (out_of alerts d).1 t key ≡ some true)
    exists-finalize key [] d h = unfold finalize in (refl, λ t e. e)
    exists-finalize key (ca ∷ alerts) d h = elim (Bool-cases (seen store now (key_of ca) d)) [
      | inl e ↦ rw (finalize-seen ca alerts d e) (exists-finalize key alerts d h)
      | inr e ↦
          let other : (key_of ca == key) ≡ false = not_it ca key d h e in
          let d' = marked store cooldown now (key_of ca) d in
          let (none_sent, kept) =
            exists-finalize key alerts d'
              (memory.keeps d now now (key_of ca) key "1" cooldown other ∙ h) in
          rw (finalize-fresh ca alerts d e) (
            skipped (enrich enricher ca) key (out_of alerts d').0
                ((ap (λ (k : String). k == key) (fingerprint-enrich enricher ca)) ∙ other)
                none_sent,
            λ t f. kept t (memory.keeps d now t (key_of ca) key "1" cooldown other ∙ f),
          )
    ]

    -- the first alert with a key marks it for the cooldown
    finalize-marks :
        (key : String) (alerts : List (CorrelatedAlert F E)) (d : D)
        → 0 < cooldown
        → (sent key (out_of alerts d).0 ≤ 1)
          × (0 < sent key (out_of alerts d).0
              → (t : ℕ) → t < now + cooldown
              → store.exists (out_of alerts d).1 t key ≡ some true)
    finalize-marks key [] d pos = unfold finalize in (omega arith, λ p. absurd (omega arith))
    finalize-marks key (ca ∷ alerts) d pos = elim (Bool-cases (seen store now (key_of ca) d)) [
      | inl e ↦ rw (finalize-seen ca alerts d e) (finalize-marks key alerts d pos)
      | inr e ↦ rw (finalize-fresh ca alerts d e) (elim (Bool-cases (key_of ca == key)) [
        | inl same ↦
            let d' = marked store cooldown now (key_of ca) d in
            let test : (key_of (enrich enricher ca) == key) ≡ true =
              ap (λ (k : String). k == key) (fingerprint-enrich enricher ca) ∙ same in
            let marks : (t : ℕ) → t < now + cooldown → store.exists d' t key ≡ some true = λ t lt.
              subst (λ (k : String). store.exists d' t k ≡ some true)
                ((eq_iff (key_of ca) key).0 same)
                (memory.remembers d now t (key_of ca) "1" cooldown lt) in
            let (none_sent, kept) = exists-finalize key alerts d' (marks now (omega arith)) in
            rw test (omega (arith, none_sent), λ p t lt. kept t (marks t lt))
        | inr other ↦
            let d' = marked store cooldown now (key_of ca) d in
            let test : (key_of (enrich enricher ca) == key) ≡ false =
              ap (λ (k : String). k == key) (fingerprint-enrich enricher ca) ∙ other in
            rw test (finalize-marks key alerts d' pos)
      ])
    ]

  module _ {D : Type 0} (store : DedupStore D) (memory : IsRemembering store)
      (cooldown now : ℕ) where
    -- what a call gives and leaves
    abbrev pub first_out : List (CorrelatedAlert F E) → D → List (CorrelatedAlert F E) × D
    first_out alerts d = finalize store key_of enricher cooldown now alerts d

    -- how many alerts with a key a sequence of later calls sends, each at its time
    unfoldable pub sent_later : String → List (ℕ × List (CorrelatedAlert F E)) → D → ℕ
    sent_later key [] d = 0
    sent_later key ((later, alerts) ∷ calls) d =
        let (out, d') = finalize store key_of enricher cooldown later alerts d in
        sent key out + sent_later key calls d'

    none_later :
        (key : String) (calls : List (ℕ × List (CorrelatedAlert F E))) (d : D)
        → All (λ c. c.0 < now + cooldown) calls
        → ((t : ℕ) → t < now + cooldown → store.exists d t key ≡ some true)
        → sent_later key calls d ≡ 0
    unfolding sent_later
    none_later key [] d h marks = refl
    none_later key ((later, alerts) ∷ calls) d h marks =
        let (none_sent, kept) =
          exists-finalize store memory cooldown later key alerts d (marks later h.0) in
        omega (
          arith,
          none_sent,
          none_later key calls (finalize store key_of enricher cooldown later alerts d).1 h.1
              (λ t lt. kept t (marks t lt)),
        )

    -- An alert is sent at most once by a call of `finalize`, by its fingerprint; and if one was sent,
    -- no sequence of later calls, however many, all within the cooldown, sends an alert with that
    -- fingerprint.
    pub finalize_cooldown :
        (key : String) (alerts : List (CorrelatedAlert F E))
        (calls : List (ℕ × List (CorrelatedAlert F E))) (d : D)
        → 0 < sent key (first_out alerts d).0
        → All (λ c. c.0 < now + cooldown) calls
        → 0 < cooldown
        → (sent key (first_out alerts d).0 ≡ 1) × (sent_later key calls (first_out alerts d).1 ≡ 0)
    finalize_cooldown key alerts calls d p within pos =
        let (once, marks) = finalize-marks store memory cooldown now key alerts d pos in
        (omega (arith, once), none_later key calls (first_out alerts d).1 within (marks p))
