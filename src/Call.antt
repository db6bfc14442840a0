-- ===== src/Call.antt =====
-- The voice call: `SfuCallClient` of frontend/src/services/sfuCallClient.ts. State holds the types
-- and the client's fields, Video the tiles and the video subscriptions, Signals the session's
-- descriptions and candidates, Session the life of a call with its
-- recovery, Media the camera and the screen share, Run all of it together.
pub mod State
pub mod Video
pub mod Signals
pub mod Session
pub mod Media
pub mod Run
