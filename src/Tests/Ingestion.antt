-- ===== src/Tests/Ingestion.antt =====
-- The theorem on the replies of Prometheus at concrete inputs.
use anomaly_detection.Prelude.{
  ℕ, ◌/◌, ◌≡◌, ap, String, some, List, [], ◌∷◌, map, arith, leb→le, ◌^◌, refl,
}
use anomaly_detection.Prelude.Int.{pos_part}
use anomaly_detection.Float64.Nano.{Nano, nano}
use anomaly_detection.Detection.{Sample}
use anomaly_detection.Worker.{answered}
use anomaly_detection.Ingestion.{Parsers, parse_samples, parse_range_series, query_outcome}
use anomaly_detection.Ingestion.Parsed.{
  Printers, IsReadable, SecondSeries, vector_entry, matrix_entry, series_at, success,
  replies_read_back,
}
use anomaly_detection.Tests.Servers.{unary, unary-IsRoundTrip}

abbrev parsers : Parsers Nano
parsers = record {
  parse_float = λ s. some (unary.parse_float s);
  parse_int = λ s. some (unary.parse_int s);
  trunc = λ x. pos_part x / 1_000_000_000;
}

abbrev printers : Printers Nano
printers = record { print_float = unary.format_float; number = λ n. nano.lit n 1 }

readable : IsReadable parsers printers
readable = record { floats = λ x. ap some (unary-IsRoundTrip.floats x); times = λ n h. omega arith }

abbrev print_status : ℕ → String
print_status = unary.format_int

abbrev samples : List (Sample Nano)
samples = record { labels = ("pod", "api-0") ∷ []; value = nano.lit 3 1_000_000_000 } ∷ []

abbrev series : List (SecondSeries Nano)
series =
    record {
      labels = ("pod", "api-0") ∷ [];
      points = (30, nano.lit 1 1_000_000_000) ∷ (60, nano.lit 2 1_000_000_000) ∷ [];
    }
    ∷ []

replies_read_back_example :
    (query_outcome "vm" "vm query" print_status
        (parse_samples parsers)
        (success "{}" (map (vector_entry printers 60) samples))
      ≡ answered samples)
    × (query_outcome "vm" "vm query" print_status
          (parse_range_series parsers)
          (success "{}" (map (matrix_entry printers) series))
        ≡ answered (map series_at series))
replies_read_back_example =
    replies_read_back "vm" "vm query" print_status parsers printers 60 "{}" samples series readable
      ((leb→le 30 (2 ^ 53) refl, (leb→le 60 (2 ^ 53) refl, tt)), tt)
