-- ===== src/Ml/Features.antt =====
-- controller/internal/ml/features.go: what the feature vector holds, and when the service is asked.
use anomaly_detection.Prelude.{
  ◌≤◌, ◌≡◌, refl, String, Bool, true, false, not, ◌&&◌, ◌||◌, Option, none, some, List, [], ◌∷◌,
  ◌==◌, length, ltb, arith, Bool-cases, inl, inr, if◌then◌else◌,
}
use anomaly_detection.Labels.{lookup, insert, lookup-insert}
use anomaly_detection.Detection.{Anomaly}
use anomaly_detection.Worker.{answered}
use anomaly_detection.Enrichment.Engine.{EnrichmentResult, Bundle}
use anomaly_detection.Ml.{
  MlClient, FeatureVector, add_results, build_feature_vector, detection_of, detect_from_features,
}

guarded :
    {A : Type 0} (on : Bool) (x y : A) → (if not on || false then x else y) ≡ (if on then y else x)
guarded true x y = refl
guarded false x y = refl

module _ {F : Type 0} where
  -- the value of the last result with a name and without an error, else a given one
  abbrev pub latest : String → List (EnrichmentResult F) → Option F → Option F
  latest k [] value = value
  latest k (r ∷ results) value =
      latest k results (if r.error == "" && r.name == k then some r.value else value)

  -- the features of the anomaly itself
  abbrev pub own_feature : Anomaly F → String → Option F
  own_feature rep k =
      if "anomaly_score" == k
      then some rep.score
      else if "anomaly_value" == k
      then some rep.value
      else none

  lookup-add_results :
      (results : List (EnrichmentResult F)) (f : FeatureVector F) (k : String)
      → lookup k (add_results results f) ≡ latest k results (lookup k f)
  unfolding add_results
  lookup-add_results [] f k = refl
  lookup-add_results (r ∷ results) f k = elim (Bool-cases (r.error == "")) [
    | inl e ↦ rw (e, ← lookup-insert r.name k r.value f) (lookup-add_results results _ k)
    | inr e ↦ rw e (lookup-add_results results f k)
  ]

  length-insert : (k : String) (v : F) (f : FeatureVector F) → length f ≤ length (insert k v f)
  unfolding insert
  length-insert k v [] = omega arith
  length-insert k v (e ∷ f) = ground (arith, length-insert k v f)

  length-add_results :
      (results : List (EnrichmentResult F)) (f : FeatureVector F)
      → length f ≤ length (add_results results f)
  unfolding add_results
  length-add_results [] f = omega arith
  length-add_results (r ∷ results) f = elim (Bool-cases (r.error == "")) [
    | inl e ↦ rw e (
        omega (
          arith,
          length-insert r.name r.value f,
          length-add_results results (insert r.name r.value f),
        ))
    | inr e ↦ rw e (length-add_results results f)
  ]

  -- For any anomaly and bundle there is a feature vector; a feature has the value of the last result
  -- of its name without an error, else that of the anomaly itself, and no other name has a value.
  -- The service is asked with it exactly if the client is enabled.
  pub build_feature_vector_lem :
      (c : MlClient F) (rep : Anomaly F) (bundle : Bundle F)
      → (f : FeatureVector F) × (build_feature_vector rep bundle ≡ some f)
        × ((k : String) → lookup k f ≡ latest k bundle.results (own_feature rep k))
        × (detect_from_features c f
            ≡ (if c.enabled then detection_of f (c.service.multivariate f) else answered none))
  unfolding build_feature_vector detect_from_features lookup
  build_feature_vector_lem c rep bundle =
      let own : FeatureVector F =
        ("anomaly_score", rep.score) ∷ ("anomaly_value", rep.value) ∷ [] in
      let f = add_results bundle.results own in
      let enough : ltb (length f) 2 ≡ false =
        ground (arith, length-add_results bundle.results own) in
      (
        f,
        rw enough refl,
        λ k. lookup-add_results bundle.results own k,
        rw enough (guarded c.enabled (answered none) (detection_of f (c.service.multivariate f))),
      )
