-- ===== src/Correlation/Correlator/Finalize.antt =====
-- controller/internal/correlation/correlator.go: `finalize`, deduplication and enrichment.
-- SHA-256 and encoding/json are parameters: `marshal` is the JSON text of a map of texts.
pub mod Cooldown
use Prim.Native.String.{◌++◌}
use anomaly_detection.Prelude.{
  ℕ, String, Bool, false, Option, none, some, List, [], ◌∷◌, if◌then◌else◌,
}
use anomaly_detection.Labels.{Labels}
use anomaly_detection.Enrichment.Identity.{Identity, identity_from_labels}
use anomaly_detection.Correlation.Correlator.{CorrelatedAlert, kind_text}

-- The interface `dedupStore` over Redis, for a server with the state `D`, at the time of the call.
-- `none` is the error of the read.
pub record DedupStore (D : Type 0) : Type 0 where
  pub exists : D → ℕ → String → Option Bool
  pub set_with_ttl : D → ℕ → String → String → ℕ → D × Bool

-- if err != nil { warn }; the zero value of the result is false
abbrev pub exists_or_false : Option Bool → Bool
exists_or_false none = false
exists_or_false (some b) = b

-- `fingerprint`
unfoldable pub fingerprint :
    {F E : Type 0} → (Labels → String) → (String → String) → CorrelatedAlert F E → String
fingerprint marshal digest alert =
    "alert:dedup:"
    ++ digest (
        marshal (
          ("kind", kind_text alert.kind)
          ∷ ("cluster", alert.cluster)
          ∷ ("ns", alert.namespace)
          ∷ ("workload", alert.workload)
          ∷ ("severity", alert.severity)
          ∷ []))

-- the enrichment of an alert that survives
unfoldable pub enrich :
    {F E : Type 0} → Option (Identity → E) → CorrelatedAlert F E → CorrelatedAlert F E
enrich none alert = alert
enrich (some run) alert = elim alert.anomalies [
  | [] ↦ alert
  | a ∷ _ ↦ record alert { enrichment = some (run (identity_from_labels a.labels)) }
]

module _ {F E D : Type 0} (store : DedupStore D) (key_of : CorrelatedAlert F E → String)
    (enricher : Option (Identity → E)) (cooldown now : ℕ) where
  -- what the calls of the store do for one alert: whether it was seen, and the store behind it; an
  -- error of either call is logged and passed over
  unfoldable pub claim_key : String → D → Bool × D
  claim_key key d =
      let seen = exists_or_false (store.exists d now key) in
      (seen, if seen then d else (store.set_with_ttl d now key "1" cooldown).0)

  -- `finalize` over its fingerprint
  unfoldable pub finalize : List (CorrelatedAlert F E) → D → List (CorrelatedAlert F E) × D
  unfolding claim_key
  finalize [] d = ([], d)
  finalize (ca ∷ alerts) d =
      let (seen, d') = claim_key (key_of ca) d in
      let (out, last) = finalize alerts d' in (if seen then out else enrich enricher ca ∷ out, last)
