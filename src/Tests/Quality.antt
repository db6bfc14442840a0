-- ===== src/Tests/Quality.antt =====
-- Connection quality on short series.
use mini_discord.Prelude.{◌≡◌, refl, none}
use mini_discord.Quality.{
  good, bad, QualityLevel, measured, QualityTracker, apply_hysteresis, PeerQuality, empty_metrics,
}

abbrev start : QualityTracker
start = record { level = measured bad; pending_level = none; pending_count = 0 }

kept_once : (apply_hysteresis start (measured good)).level ≡ measured bad
unfolding apply_hysteresis
kept_once = refl

abbrev link : QualityLevel → PeerQuality
link l = record { level = l; metrics = empty_metrics; direction = none }
