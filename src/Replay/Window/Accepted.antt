-- ===== src/Replay/Window/Accepted.antt =====
-- controller/internal/replay/window.go: what holds of a window that is accepted.
use anomaly_detection.Prelude.{◌≡◌, true, false}
use anomaly_detection.Prelude.Int.{ℤ, add_ℤ, sub_ℤ, ltb_ℤ}
use anomaly_detection.Replay.Window.{WindowResult, accepted, rejected, min_window, future_slack}

-- a window in order, not in the future, and of a size within the bounds
abbrev pub IsBounded : ℤ → ℤ → ℤ × ℤ → Type 0
IsBounded now max_range (from, to) =
    (ltb_ℤ from to ≡ true)
    × (ltb_ℤ (add_ℤ now future_slack) to ≡ false)
    × (ltb_ℤ (sub_ℤ to from) min_window ≡ false)
    × (ltb_ℤ max_range (sub_ℤ to from) ≡ false)

-- a result, of which the window is bounded if there is one
abbrev Bounded : ℤ → ℤ → WindowResult (ℤ × ℤ) → Type 0
Bounded now max_range (accepted w) = IsBounded now max_range w
Bounded now max_range (rejected e) = Unit
