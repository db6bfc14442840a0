-- ===== src/Notify.antt =====
-- frontend/src/services/notifications: what a new message makes a tab do. Rules is rules.ts, Leader
-- is leader.ts, Sound is the rate limit of sound.ts.
pub mod Rules
pub mod Leader
pub mod Sound
