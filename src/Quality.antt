-- ===== src/Quality.antt =====
-- The quality of a connection as the user sees it: frontend/src/services/connectionQuality.ts.
-- Measured values are natural numbers (of any unit that divides them). The texts of a
-- `PeerQuality` are left out.
pub mod Hysteresis
pub mod Worst
use mini_discord.Prelude.{
  ℕ, ◌+◌, ltb, leb, ◌==◌, max, Bool, true, false, not, ◌&&◌, List, [], ◌∷◌, Option, none, some,
  if◌then◌else◌,
}

pub data MeasuredLevel : Type 0 where
  good medium bad : MeasuredLevel

pub data QualityLevel : Type 0 where
  measured : MeasuredLevel → QualityLevel
  connecting disconnected : QualityLevel

pub data QualityDirection : Type 0 where
  inbound outbound : QualityDirection

-- `rankOf`, plus one.
abbrev pub rank_of : QualityLevel → ℕ
rank_of (measured good) = 1
rank_of (measured medium) = 2
rank_of (measured bad) = 3
rank_of connecting = 0
rank_of disconnected = 0

abbrev pub measured_rank : MeasuredLevel → ℕ
measured_rank l = rank_of (measured l)

unfoldable pub classify : Option ℕ → ℕ → ℕ → Option MeasuredLevel
classify none medium_at bad_at = none
classify (some value) medium_at bad_at =
    if leb bad_at value then some bad else if leb medium_at value then some medium else some good

-- one round of the loop
abbrev pub worse : Option MeasuredLevel → Option MeasuredLevel → Option MeasuredLevel
worse none result = result
worse (some l) none = some l
worse (some l) (some r) = if ltb (measured_rank r) (measured_rank l) then some l else some r

abbrev pub worst_from : Option MeasuredLevel → List (Option MeasuredLevel) → Option MeasuredLevel
worst_from result [] = result
worst_from result (l ∷ levels) = worst_from (worse l result) levels

unfoldable pub worst_level : List (Option MeasuredLevel) → Option MeasuredLevel
worst_level levels = worst_from none levels

unfoldable pub worst_number : Option ℕ → Option ℕ → Option ℕ
worst_number current none = current
worst_number none (some candidate) = some candidate
worst_number (some current) (some candidate) = some (max current candidate)

abbrev is_good : MeasuredLevel → Bool
is_good good = true
is_good l = false

unfoldable pub pick_direction :
    Option MeasuredLevel → Option MeasuredLevel → Option QualityDirection
pick_direction (some i) (some o) =
    if ltb (measured_rank o) (measured_rank i)
    then some inbound
    else if ltb (measured_rank i) (measured_rank o)
    then some outbound
    else none
pick_direction (some i) none = if is_good i then none else some inbound
pick_direction none (some o) = if is_good o then none else some outbound
pick_direction none none = none

-- The part of `QualityTracker` that the hysteresis works on.
pub record QualityTracker : Type 0 where
  pub level : QualityLevel
  pub pending_level : Option MeasuredLevel
  pub pending_count : ℕ

abbrev pub recovery_samples : ℕ
recovery_samples = 2

abbrev settled_at : QualityLevel → QualityTracker
settled_at l = record { level = l; pending_level = none; pending_count = 0 }

abbrev is_pending : Option MeasuredLevel → MeasuredLevel → Bool
is_pending none l = false
is_pending (some p) l = measured_rank p == measured_rank l

abbrev counted : MeasuredLevel → QualityTracker → QualityTracker
counted l t =
    if is_pending t.pending_level l
    then record t { pending_count = t.pending_count + 1 }
    else record t { pending_level = some l; pending_count = 1 }

abbrev promote : MeasuredLevel → QualityTracker → QualityTracker
promote l t = if leb recovery_samples t.pending_count then settled_at (measured l) else t

-- `current` is not measured, or the sample is not better
abbrev at_once : QualityLevel → MeasuredLevel → Bool
at_once (measured current) l = leb (measured_rank current) (measured_rank l)
at_once current l = true

-- The level that `applyHysteresis` returns is the tracker's after it.
unfoldable pub apply_hysteresis : QualityTracker → QualityLevel → QualityTracker
apply_hysteresis t (measured l) =
    if at_once t.level l then settled_at (measured l) else promote l (counted l t)
apply_hysteresis t connecting = settled_at connecting
apply_hysteresis t disconnected = settled_at disconnected

pub record QualityMetrics : Type 0 where
  pub rtt_ms : Option ℕ
  pub inbound_loss_percent : Option ℕ
  pub inbound_jitter_ms : Option ℕ
  pub outbound_loss_percent : Option ℕ
  pub outbound_jitter_ms : Option ℕ

abbrev pub empty_metrics : QualityMetrics
empty_metrics = record {
  rtt_ms = none;
  inbound_loss_percent = none;
  inbound_jitter_ms = none;
  outbound_loss_percent = none;
  outbound_jitter_ms = none;
}

pub record PeerQuality : Type 0 where
  pub level : QualityLevel
  pub metrics : QualityMetrics
  pub direction : Option QualityDirection

-- The loop's two variables: the worst measured link, and whether one is connecting.
abbrev worse_item : PeerQuality → Option PeerQuality → Option PeerQuality
worse_item item none = some item
worse_item item (some worst) =
    if ltb (rank_of worst.level) (rank_of item.level) then some item else some worst

abbrev visit : QualityLevel → PeerQuality → Option PeerQuality × Bool → Option PeerQuality × Bool
visit (measured l) item acc = (worse_item item acc.0, acc.1)
visit connecting item acc = (acc.0, true)
visit disconnected item acc = acc

abbrev pub visit_all : List PeerQuality → Option PeerQuality × Bool → Option PeerQuality × Bool
visit_all [] acc = acc
visit_all (item ∷ items) acc = visit_all items (visit item.level item acc)

abbrev without_metrics : QualityLevel → PeerQuality
without_metrics l = record { level = l; metrics = empty_metrics; direction = none }

abbrev conclude : Option PeerQuality × Bool → PeerQuality
conclude (some worst, c) = worst
conclude (none, c) = if c then without_metrics connecting else without_metrics disconnected

unfoldable pub aggregate_quality : List PeerQuality → Option PeerQuality
aggregate_quality [] = none
aggregate_quality (item ∷ items) = some (conclude (visit_all (item ∷ items) (none, false)))
