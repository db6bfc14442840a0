-- ===== src/Quality/Hysteresis.antt =====
-- What the user sees of a series of samples.
use mini_discord.Prelude.{◌≤◌, ◌<◌, ◌≡◌, refl, arith}
use mini_discord.Quality.{
  MeasuredLevel, good, medium, bad, QualityLevel, measured, connecting, disconnected, rank_of,
  measured_rank, QualityTracker, apply_hysteresis,
}

-- What is shown is never better than the last sample, and after the same sample twice in a row it is
-- that sample, whatever was shown before.
pub apply_hysteresis-twice :
    (t : QualityTracker) (l : QualityLevel)
    → (rank_of l ≤ rank_of (apply_hysteresis t l).level)
      × ((apply_hysteresis (apply_hysteresis t l) l).level ≡ l)
unfolding apply_hysteresis
apply_hysteresis-twice t (measured good) = ground arith
apply_hysteresis-twice t (measured medium) = ground arith
apply_hysteresis-twice t (measured bad) = ground arith
apply_hysteresis-twice t connecting = ground arith
apply_hysteresis-twice t disconnected = ground arith

-- The shown level gets better than a measured one only by two equal samples in a row.
pub apply_hysteresis-improves :
    (t : QualityTracker) (a l m : MeasuredLevel)
    → (apply_hysteresis t (measured a)).level ≡ measured m
    → rank_of (apply_hysteresis (apply_hysteresis t (measured a)) (measured l)).level
      < measured_rank m
    → a ≡ l
unfolding apply_hysteresis
apply_hysteresis-improves t good good m shown better = refl
apply_hysteresis-improves t good medium m shown better = ground (arith, shown, better)
apply_hysteresis-improves t good bad m shown better = ground (arith, shown, better)
apply_hysteresis-improves t medium good m shown better = ground (arith, shown, better)
apply_hysteresis-improves t medium medium m shown better = refl
apply_hysteresis-improves t medium bad m shown better = ground (arith, shown, better)
apply_hysteresis-improves t bad good m shown better = ground (arith, shown, better)
apply_hysteresis-improves t bad medium m shown better = ground (arith, shown, better)
apply_hysteresis-improves t bad bad m shown better = refl
