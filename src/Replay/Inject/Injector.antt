-- ===== src/Replay/Inject/Injector.antt =====
-- controller/internal/replay/inject/injector.go: `Apply`. math/rand is no part of the repository:
-- `draws_of` gives the values of rng.Float64() for a seed. A seed is taken on 64 bits, as the
-- number that its two's complement is.
use Prim.Native.Char.{code}
use Prim.Native.String.{◌++◌}
use anomaly_detection.Prelude.{
  ℕ, ◌+◌, ◌*◌, ◌/◌, ◌%◌, ◌^◌, String, Bool, true, false, List, [], ◌∷◌, ◌++◌ as append, ◌==◌,
  Option, none, some, if◌then◌else◌,
}
use anomaly_detection.Float64.{Float64}
use anomaly_detection.Labels.{contains}
use anomaly_detection.Replay.Adapter.{Point, TimeSeries}
use anomaly_detection.Replay.Inject.{
  InjectionEntry, InjectionConfig, GroundTruth, target_fingerprint, match_labels,
}
use anomaly_detection.Replay.Inject.Faults.{apply_fault}

-- h*31 + int(c), on 64 bits, for the characters of a text
unfoldable pub hash_text : String → ℕ → ℕ
hash_text String.[] h = h
hash_text (String.◌∷◌ c s) h = hash_text s ((h * 31 + code c) % 2 ^ 64)

-- the state of an `Injector`
pub record Injector (F : Type 0) : Type 0 where
  pub truths : List (GroundTruth F)
  pub recorded : List String

module _ {F : Type 0} where
  -- `entryHash`
  unfoldable pub entry_hash : InjectionEntry F → ℕ
  unfolding hash_text
  entry_hash e =
      let h = hash_text e.target.metric 0 in
      let h' = (h * 31 + e.start / 1_000_000_000) % 2 ^ 64 in
      (h' * 31 + e.end / 1_000_000_000) % 2 ^ 64

  module _ (print_time : ℕ → String) where
    -- the ground truth of a series under an entry, once for each
    unfoldable pub note_truth : String → InjectionEntry F → Injector F → Injector F
    note_truth fp e inj =
        let key = fp ++ ("/" ++ (e.fault_type ++ ("/" ++ print_time e.start))) in
        if contains inj.recorded key then inj else record {
          truths = append inj.truths (
              record {
                target = fp;
                fault_type = e.fault_type;
                start = e.start;
                end = e.end;
                magnitude = e.magnitude;
              }
              ∷ []);
          recorded = key ∷ inj.recorded;
        }

    module _ ⦃fl : Float64 F⦄ where
      -- the points and the draws behind a fault function
      abbrev or_same :
          List (Point F) → List F → Option (List (Point F) × List F) → List (Point F) × List F
      or_same points draws none = (points, draws)
      or_same points draws (some r) = r

      -- fn != nil
      abbrev is_some : Option (List (Point F) × List F) → Bool
      is_some none = false
      is_some (some r) = true

      -- the loop over the series for an entry, with the draws left
      unfoldable pub apply_entry :
          String
          → InjectionEntry F
          → List (TimeSeries F)
          → List F
          → Injector F
          → List (TimeSeries F) × Injector F
      unfolding note_truth
      apply_entry metric e [] draws inj = ([], inj)
      apply_entry metric e (s ∷ series) draws inj =
          let chosen = match_labels e.target.labels s.labels in
          let hit =
            or_same s.points draws
              (apply_fault e.fault_type e.start e.end e.magnitude s.points draws) in
          let noted = note_truth (target_fingerprint metric s.labels) e inj in
          let (rest, last) =
            apply_entry metric e series (if chosen then hit.1 else draws)
              (if chosen then noted else inj) in
          ((if chosen then record s { points = hit.0 } else s) ∷ rest, last)

      module _ (draws_of : ℕ → List F) where
        -- the loop over the entries; an entry of another metric, or of a type without a function, is
        -- passed over
        unfoldable pub apply_entries :
            ℕ
            → String
            → List (InjectionEntry F)
            → List (TimeSeries F)
            → Injector F
            → List (TimeSeries F) × Injector F
        unfolding apply_entry entry_hash
        apply_entries seed metric [] series inj = (series, inj)
        apply_entries seed metric (e ∷ entries) series inj =
            let draws = draws_of ((seed + entry_hash e) % 2 ^ 64) in
            let (series', inj') = apply_entry metric e series draws inj in
            let known = is_some (apply_fault e.fault_type e.start e.end e.magnitude [] []) in
            let here = if e.target.metric == metric then known else false in
            apply_entries seed metric entries (if here then series' else series)
              (if here then inj' else inj)

        -- `Apply`; `none` is the injector without a profile
        unfoldable pub inject :
            Option (InjectionConfig F)
            → String
            → List (TimeSeries F)
            → Injector F
            → List (TimeSeries F) × Injector F
        unfolding apply_entries
        inject none metric series inj = (series, inj)
        inject (some cfg) metric series inj =
            apply_entries cfg.seed metric cfg.injections series inj
