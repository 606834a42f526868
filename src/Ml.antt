-- ===== src/Ml.antt =====
-- controller/internal/ml/features.go and client.go: the feature vector of an alert and the calls of
-- the ML service, which is the interface `MlService`. A panic is `none`; counters and timeouts are
-- left out.
pub mod Features
use Prim.Native.String.{◌++◌}
use anomaly_detection.Prelude.{
  ℕ, String, Bool, false, not, ◌||◌, Option, none, some, List, [], ◌∷◌, ◌==◌, length, ltb, map,
  if◌then◌else◌,
}
use anomaly_detection.Float64.{Float64}
use anomaly_detection.Labels.{insert}
use anomaly_detection.Detection.{Anomaly}
use anomaly_detection.Correlation.Correlator.{MlDetection}
use anomaly_detection.Worker.{Reply, answered, failed}
use anomaly_detection.Enrichment.Engine.{EnrichmentResult, Bundle}

-- pb.ForecastResponse, pb.MultivariateResponse
pub record ForecastReply (F : Type 0) : Type 0 where
  pub predicted : List F
  pub will_breach_threshold : Bool
  pub confidence : F

pub record MultivariateReply (F : Type 0) : Type 0 where
  pub is_anomaly : Bool
  pub anomaly_score : F
  pub contributing_metrics : List String

-- The calls of the service: Forecast (metric, values, timestamps, threshold), DetectMultivariate.
pub record MlService (F : Type 0) : Type 0 where
  pub forecast : String → List F → List ℕ → F → Reply (ForecastReply F)
  pub multivariate : List (String × F) → Reply (MultivariateReply F)

-- the struct `Client`
pub record MlClient (F : Type 0) : Type 0 where
  pub enabled : Bool
  pub service : MlService F

abbrev pub min_features : ℕ
min_features = 2

-- map[string]float64
abbrev pub FeatureVector : Type 0 → Type 0
FeatureVector F = List (String × F)

module _ {F : Type 0} where
  -- the loop over the results of a bundle
  unfoldable pub add_results : List (EnrichmentResult F) → FeatureVector F → FeatureVector F
  add_results [] f = f
  add_results (r ∷ results) f =
      add_results results (if r.error == "" then insert r.name r.value f else f)

  -- `BuildFeatureVector`
  unfoldable pub build_feature_vector : Anomaly F → Bundle F → Option (FeatureVector F)
  unfolding add_results
  build_feature_vector rep bundle =
      let f =
        add_results bundle.results
          (("anomaly_score", rep.score) ∷ ("anomaly_value", rep.value) ∷ []) in
      if ltb (length f) min_features then none else some f

  abbrev pub detection_of :
      FeatureVector F → Reply (MultivariateReply F) → Reply (Option (MlDetection F))
  detection_of features (failed e) = failed e
  detection_of features (answered resp) = answered (
      some (record {
        is_anomaly = resp.is_anomaly;
        score = resp.anomaly_score;
        contributors = resp.contributing_metrics;
        feature_count = length features;
      }))

  -- `DetectFromFeatures`; `answered none` is a result that is nil
  unfoldable pub detect_from_features :
      MlClient F → FeatureVector F → Reply (Option (MlDetection F))
  detect_from_features c features =
      if not c.enabled || ltb (length features) min_features
      then answered none
      else detection_of features (c.service.multivariate features)

  -- a nil map of features is an empty one
  abbrev pub or_nil : Option (FeatureVector F) → FeatureVector F
  or_nil none = []
  or_nil (some f) = f

  -- the last value of a list; the index of an empty one is out of range
  unfoldable pub last_value : List F → Option F
  last_value [] = none
  last_value (x ∷ []) = some x
  last_value (x ∷ y ∷ xs) = last_value (y ∷ xs)

-- if err != nil { warn } else if det != nil { attach }
abbrev detected : {F : Type 0} → Reply (Option (MlDetection F)) → Option (MlDetection F)
detected (failed e) = none
detected (answered det) = det

-- the loop of `joinMetrics`
unfoldable pub join_rest : String → List String → String
join_rest result [] = result
join_rest result (m ∷ metrics) = join_rest (result ++ ("," ++ m)) metrics

-- `joinMetrics`
unfoldable pub join_metrics : List String → String
unfolding join_rest
join_metrics [] = ""
join_metrics (m ∷ metrics) = join_rest m metrics

-- what `runCycle` takes from the service for an alert: nothing where it is disabled or fails
unfoldable pub ml_detect : {F : Type 0} → MlClient F → Anomaly F → Bundle F → Option (MlDetection F)
unfolding build_feature_vector detect_from_features
ml_detect c rep bundle =
    if c.enabled
    then detected (detect_from_features c (or_nil (build_feature_vector rep bundle)))
    else none

module _ {F : Type 0} ⦃fl : Float64 F⦄ where
  unfoldable pub severity_from_score : F → String
  severity_from_score score = if fl.lt (fl.lit 8 10) score then "critical" else "warning"

  unfoldable pub forecast_anomaly : String → F → ℕ → Option F → Option (Anomaly F)
  forecast_anomaly metric confidence now none = none
  forecast_anomaly metric confidence now (some value) = some (record {
    metric_name = metric;
    labels = ("forecast", "true") ∷ [];
    value = value;
    mean = fl.lit 0 1;
    stddev = fl.lit 0 1;
    score = confidence;
    severity = "warning";
    signal = "metrics";
    detector = "ml_forecast";
    timestamp = now;
  })

  abbrev as_reply : Option (Anomaly F) → Option (Reply (Option (Anomaly F)))
  as_reply none = none
  as_reply (some a) = some (answered (some a))

  unfoldable pub forecast_of :
      String → ℕ → Reply (ForecastReply F) → Option (Reply (Option (Anomaly F)))
  unfolding forecast_anomaly
  forecast_of metric now (failed e) = some (failed e)
  forecast_of metric now (answered resp) =
      if resp.will_breach_threshold
      then as_reply (forecast_anomaly metric resp.confidence now (last_value resp.predicted))
      else some (answered none)

  -- `Forecast`; `none` is the panic on a breach without a prediction
  unfoldable pub forecast :
      MlClient F → String → List F → List ℕ → F → ℕ → Option (Reply (Option (Anomaly F)))
  unfolding forecast_of
  forecast c metric values timestamps threshold now =
      if not c.enabled || ltb (length values) 10
      then some (answered none)
      else forecast_of metric now (c.service.forecast metric values timestamps threshold)

  unfoldable pub multivariate_of : ℕ → Reply (MultivariateReply F) → Reply (Option (Anomaly F))
  multivariate_of now (failed e) = failed e
  multivariate_of now (answered resp) =
      if resp.is_anomaly
      then answered (
          some (record {
            metric_name = "multivariate_anomaly";
            labels = ("contributing", join_metrics resp.contributing_metrics) ∷ [];
            value = resp.anomaly_score;
            mean = fl.lit 0 1;
            stddev = fl.lit 0 1;
            score = resp.anomaly_score;
            severity = severity_from_score resp.anomaly_score;
            signal = "metrics";
            detector = "ml_isolation_forest";
            timestamp = now;
          }))
      else answered none

  -- `DetectMultivariate`
  unfoldable pub detect_multivariate :
      MlClient F → List (String × F) → ℕ → Reply (Option (Anomaly F))
  unfolding multivariate_of
  detect_multivariate c samples now =
      if not c.enabled || ltb (length samples) 2
      then answered none
      else multivariate_of now (c.service.multivariate samples)
