-- ===== src/Replay/Tick/Mirror.antt =====
-- controller/internal/replay/engine.go against controller/cmd/controller/main.go: a tick of a replay
-- filters its anomalies as a cycle of the controller does.
use anomaly_detection.Prelude.{ℕ, ◌≡◌, refl, sym, String, List, [], ◌∷◌, Bool-cases, inl, inr}
use anomaly_detection.Float64.{Float64}
use anomaly_detection.Detection.{Anomaly}
use anomaly_detection.Detection.Direction.{filter_by_direction, direction_loop}
use anomaly_detection.Detection.Floor.{filter_by_floor, floor_loop}
use anomaly_detection.Detection.Fdr.{new_fdr, apply_fdr, correct}
use anomaly_detection.Config.{DetectionConfig, direction_map, floor_map}
use anomaly_detection.Controller.Cycle.{Filtered, post_filter}
use anomaly_detection.Replay.Tick.{TickReport, tick_filter}

module _ {F : Type 0} ⦃fl : Float64 F⦄ where
  -- the counts of a tick as those of a cycle
  abbrev pub as_filtered : TickReport F → Filtered F
  as_filtered r = record {
    accepted = r.accepted;
    direction_dropped = r.direction_filtered;
    floor_dropped = r.floor_filtered;
    rejected = r.fdr_rejected;
  }

  filter_by_direction-nil :
      (m : List (String × String)) → filter_by_direction {F = F} [] m ≡ ([], 0)
  unfolding filter_by_direction direction_loop
  filter_by_direction-nil [] = refl
  filter_by_direction-nil (d ∷ m) = refl

  filter_by_floor-nil : (m : List (String × F)) → filter_by_floor [] m ≡ ([], 0)
  unfolding filter_by_floor floor_loop
  filter_by_floor-nil [] = refl
  filter_by_floor-nil (f ∷ m) = refl

  apply_fdr-nil : (target : F) (tests : ℕ) → apply_fdr target [] tests ≡ ([], 0)
  unfolding apply_fdr correct
  apply_fdr-nil target tests = elim (Bool-cases (fl.le (fl.lit 1 1) target)) [
    | inl e ↦ rw e refl
    | inr e ↦ rw e refl
  ]

  post_filter-nil :
      (d : DetectionConfig F) (target : F) (family : ℕ)
      → post_filter d target [] family
        ≡ record { accepted = []; direction_dropped = 0; floor_dropped = 0; rejected = 0 }
  unfolding post_filter
  post_filter-nil d target family =
      rw
        (
          filter_by_direction-nil (direction_map d),
          filter_by_floor-nil (floor_map d),
          apply_fdr-nil (new_fdr target) family,
        )
        refl

  -- With the same rules, target, anomalies and number of tests, the filters of a tick of a replay
  -- accept and count what those of a cycle of the controller do, also on no anomalies at all, on
  -- which the replay skips them.
  pub tick_filter_mirrors :
      (d : DetectionConfig F) (target : F) (anomalies : List (Anomaly F)) (tested : ℕ)
      → as_filtered (tick_filter d target anomalies tested) ≡ post_filter d target anomalies tested
  unfolding tick_filter post_filter
  tick_filter_mirrors d target [] tested = sym (post_filter-nil d target tested)
  tick_filter_mirrors d target (a ∷ anomalies) tested = refl
