-- ===== src/Ingestion.antt =====
-- controller/internal/ingestion/metrics.go and logs.go: the replies of Prometheus and Loki, from the
-- decoded JSON on. HTTP and the JSON decoder are left out; strconv and the conversion of a float to
-- an integer are parameters. Timestamps are nanoseconds.
pub mod Parsed
use Prim.Native.String.{◌++◌}
use anomaly_detection.Prelude.{
  ℕ, ◌*◌, ◌^◌, String, Option, none, some, List, [], ◌∷◌, ◌==◌, nat_beq, if◌then◌else◌,
}
use anomaly_detection.Labels.{Labels}
use anomaly_detection.Detection.{Sample}
use anomaly_detection.Worker.{Reply, answered, failed}
use anomaly_detection.Replay.Adapter.{Point, TimeSeries}

-- an interface{} behind the decoder: a text, a number, or anything else
pub data JsonValue (F : Type 0) : Type 0 where
  json_string : String → JsonValue F
  json_number : F → JsonValue F
  json_other : JsonValue F

-- strconv.ParseFloat and ParseInt, with no value for an error, and int64 of a float
pub record Parsers (F : Type 0) : Type 0 where
  pub parse_float : String → Option F
  pub parse_int : String → Option ℕ
  pub trunc : F → ℕ

-- promResult and lokiResult; promRangeResult and lokiRangeResult
pub record InstantResult (F : Type 0) : Type 0 where
  pub metric : Labels
  pub value : JsonValue F × JsonValue F

pub record RangeResult (F : Type 0) : Type 0 where
  pub metric : Labels
  pub values : List (JsonValue F × JsonValue F)

-- promResponse and lokiResponse, promRangeResponse and lokiRangeResponse
pub record ApiResponse (A : Type 0) : Type 0 where
  pub status : String
  pub error : String
  pub result : List A

-- What the HTTP client gives for a request: the text of an error, or a status with its body, as a
-- text and decoded.
pub data HttpOutcome (A : Type 0) : Type 0 where
  no_response : String → HttpOutcome A
  responded : ℕ → String → Reply (ApiResponse A) → HttpOutcome A

module _ {F : Type 0} (parsers : Parsers F) where
  -- a value that is a text and reads as a number
  unfoldable pub value_of : JsonValue F → Option F
  value_of (json_string s) = parsers.parse_float s
  value_of (json_number x) = none
  value_of json_other = none

  -- `parseSamples` and `parseLokiSamples`
  unfoldable pub parse_samples : List (InstantResult F) → List (Sample F)
  unfolding value_of
  parse_samples [] = []
  parse_samples (r ∷ results) =
      let rest = parse_samples results in
      elim (value_of r.value.1) [
        | none ↦ rest
        | some v ↦ record { labels = r.metric; value = v } ∷ rest
      ]

  -- the time of a pair of Prometheus, in whole seconds
  unfoldable pub prom_time : JsonValue F → Option ℕ
  prom_time (json_number x) = some (parsers.trunc x * 10 ^ 9)
  prom_time (json_string s) = none
  prom_time json_other = none

  -- the time of a pair of Loki, a text or a number of nanoseconds
  unfoldable pub loki_time : JsonValue F → Option ℕ
  loki_time (json_string s) = parsers.parse_int s
  loki_time (json_number x) = some (parsers.trunc x)
  loki_time json_other = none

  -- a point, if both its time and its value can be read
  abbrev pub point_of : Option ℕ → Option F → Option (Point F)
  point_of none v = none
  point_of (some t) none = none
  point_of (some t) (some v) = some (record { t = t; v = v })

  module _ (time_of : JsonValue F → Option ℕ) where
    unfoldable pub parse_points : List (JsonValue F × JsonValue F) → List (Point F)
    unfolding value_of
    parse_points [] = []
    parse_points (pair ∷ pairs) =
        let rest = parse_points pairs in
        elim (point_of (time_of pair.0) (value_of pair.1)) [ none ↦ rest | some p ↦ p ∷ rest ]

    -- the loop of `parseRangeSeries` and of `parseLokiRangeSeries`
    unfoldable pub parse_series : List (RangeResult F) → List (TimeSeries F)
    unfolding parse_points
    parse_series [] = []
    parse_series (r ∷ results) =
        record { labels = r.metric; points = parse_points r.values } ∷ parse_series results

  -- `parseRangeSeries`
  unfoldable pub parse_range_series : List (RangeResult F) → List (TimeSeries F)
  unfolding parse_series prom_time
  parse_range_series results = parse_series prom_time results

  -- `parseLokiRangeSeries`
  unfoldable pub parse_loki_range_series : List (RangeResult F) → List (TimeSeries F)
  unfolding parse_series loki_time
  parse_loki_range_series results = parse_series loki_time results

-- The four queries behind the HTTP client, with the words of their errors.
module _ {A B : Type 0} (source failure : String) (print_status : ℕ → String)
    (parse : List A → List B) where
  unfoldable pub of_decoded : Reply (ApiResponse A) → Reply (List B)
  of_decoded (failed e) = failed ("decode response: " ++ e)
  of_decoded (answered r) =
      if r.status == "success"
      then answered (parse r.result)
      else failed (failure ++ (" failed: " ++ r.error))

  unfoldable pub query_outcome : HttpOutcome A → Reply (List B)
  unfolding of_decoded
  query_outcome (no_response e) = failed e
  query_outcome (responded status body decoded) =
      if nat_beq status 200
      then of_decoded decoded
      else failed (source ++ (" returned " ++ (print_status status ++ (": " ++ body))))
