-- ===== src/Tests.antt =====
-- Tests of the definitions, and the theorems at concrete inputs.
mod Socket
mod Wire
mod Notify
mod Unread
mod Messages
mod Playlist
mod Quality
mod Typing
mod Call
mod Servers
mod Voice
mod Media
