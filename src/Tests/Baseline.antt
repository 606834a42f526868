-- ===== src/Tests/Baseline.antt =====
-- The theorems on the baseline store, for a series with three samples around ten and a reading far
-- from them. Values are in units of 10^-9.
use anomaly_detection.Prelude.{
  ℕ, List, map, ◌≡◌, ◌↔◌, refl, String, true, false, none, some, [], ◌∷◌, ◌==◌, arith,
}
use anomaly_detection.Prelude.Int.{pos}
use anomaly_detection.Float64.Nano.{Nano, nano}
use anomaly_detection.Labels.{contains, lookup, get}
use anomaly_detection.Baseline.{Stats, Outcome, evaluated, load_failed, MeetsContract}
use anomaly_detection.Baseline.Keys.{normalize_labels, baseline_key, labels_hash}
use anomaly_detection.Baseline.Store.{
  StoreState, zscore_against, is_poisoned, tested_result, write_stats, parse_stats, stats_of_fields,
  load, evaluate_store,
}
use anomaly_detection.Baseline.Store.Calls.{
  evaluate_store-MeetsContract, evaluate_store_gate, evaluate_store_bookkeeping,
}
use anomaly_detection.Baseline.Store.Poisoned.{evaluate_run, Holds, poisoned_run_keeps}
use anomaly_detection.Baseline.Store.Reliable.{SameStats, load-hset}
use anomaly_detection.Tests.Servers.{
  Hashes, list_store, list_store-IsReliable, unary, unary-IsRoundTrip, config, digest_of,
}

abbrev known : Stats Nano
known = record { mean = pos 10; stddev = pos 1; ewma = pos 10; count = 3; last_update = 0 }

abbrev server : StoreState Hashes
server = record {
  redis = ("baseline:cpu:none", write_stats unary known) ∷ [];
  seen_series = [];
  recorded = [];
  baseline_updates = 0;
  poison_rejected = 0;
}

abbrev outcome : Outcome Nano × StoreState Hashes
outcome = evaluate_store unary list_store digest_of config "cpu" [] (pos 100) 7 server

abbrev z : Nano
z = zscore_against known (pos 100)

known_read : load unary list_store digest_of config "baseline:cpu:none" server.redis ≡ some known
unfolding load stats_of_fields parse_stats write_stats lookup get
known_read = refl

far : is_poisoned config z ≡ true
unfolding is_poisoned zscore_against
far = refl

abbrev poisoned : List (Nano × ℕ)
poisoned = (pos 100, 7) ∷ (pos 100, 8) ∷ []

poisoned_run_keeps_example :
    let (outcomes, last) =
      evaluate_run unary list_store digest_of config "cpu" [] poisoned server in
    (outcomes
      ≡ map (λ r. evaluated (tested_result config (zscore_against known r.0) r.0 known)) poisoned)
    × Holds unary list_store digest_of config "cpu" [] last.redis known
    × (last.redis ≡ server.redis)
    × (last.baseline_updates ≡ 0)
    × (last.poison_rejected ≡ 2)
unfolding baseline_key labels_hash normalize_labels
poisoned_run_keeps_example =
    poisoned_run_keeps unary list_store digest_of config "cpu" [] known poisoned server known_read
      (omega arith) (omega arith) (far, (far, tt))

tested : outcome.0 ≡ evaluated (tested_result config z (pos 100) known)
unfolding baseline_key labels_hash normalize_labels
tested =
    (evaluate_store_gate unary list_store digest_of config "cpu" [] (pos 100) 7 server known_read
      (omega arith) (omega arith) far).0

evaluate_store-MeetsContract_example :
    MeetsContract config known (pos 100) (tested_result config z (pos 100) known)
unfolding baseline_key labels_hash normalize_labels
evaluate_store-MeetsContract_example =
    evaluate_store-MeetsContract unary list_store digest_of config "cpu" [] (pos 100) 7 server
      known_read tested

evaluate_store_bookkeeping_example :
    (outcome.1.recorded ≡ ("cpu", []) ∷ [])
    × (contains outcome.1.seen_series "baseline:cpu:none" ≡ true)
    × ((outcome.0 ≡ load_failed)
        ↔ (load unary list_store digest_of config "baseline:cpu:none" server.redis ≡ none))
unfolding baseline_key labels_hash normalize_labels
evaluate_store_bookkeeping_example =
    evaluate_store_bookkeeping unary list_store digest_of config "cpu" [] (pos 100) 7 server

load-hset_example :
    let saved = (list_store.hset [] "baseline:cpu:none" (write_stats unary known)).0 in
    ((read : Stats Nano) × (load unary list_store digest_of config "baseline:cpu:none" saved
        ≡ some read)
      × SameStats read known)
    × ((other : String)
        → ("baseline:cpu:none" == other) ≡ false
        → load unary list_store digest_of config other saved
          ≡ load unary list_store digest_of config other [])
load-hset_example =
    load-hset unary unary-IsRoundTrip list_store digest_of config list_store-IsReliable []
      "baseline:cpu:none" known
