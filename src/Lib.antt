-- ===== src/Lib.antt =====
-- Verification of the chat client of frontend/src, the TypeScript part of the repository.
--
-- The client talks to the server over one WebSocket. `ChatSocket` of
-- frontend/src/services/chatSocket.ts owns it: it queues commands, matches replies to them,
-- keeps time limits, reconnects, and turns events into calls of listeners. The hooks of
-- frontend/src/hooks are such listeners: useMessages keeps the loaded messages of each channel
-- and their pages, useUnread the unread counters and the read marks that it sends back,
-- useTypingIndicator who is typing, useServers the servers, their channels and what is selected,
-- useVoice who is in which voice channel. frontend/src/services/notifications decides whether a
-- message makes a tab notify, which of several tabs plays the sound, and how often.
-- playlistService orders the media player's queue, connectionQuality turns samples of a call
-- into what the user sees. `SfuCallClient` of frontend/src/services/sfuCallClient.ts holds the
-- voice call: it joins through `ChatSocket`, keeps the peer connection to the media server, and
-- recovers a lost session.
--
-- The files:
-- - Json, Text: dynamic values as `JSON.parse` returns them, and texts as code points.
-- - Wire: the entities of frontend/src/types/chat.ts. Wire/Decode: `toMessage`, `toDMChannel`
--   and the functions they call. Wire/Responses with its Rows and Commands: the methods of
--   `ChatSocket` that send a command and decode its reply, each with its payload.
-- - Socket: the state and the operations of `ChatSocket`: `flushQueue`, `rejectAllPending`,
--   `scheduleReconnect`, `connect` with the handlers of the WebSocket, `close`, `sendCommand`.
--   Socket/Dispatch: `ws.onmessage` and `handleSocketError`. Socket/Run: any sequence of calls
--   and events, as explicit steps. Promises are numbers in the order of creation, timers and
--   WebSockets are numbered too; what is settled, sent and emitted is kept in order. A callback
--   of a promise runs when the caller's code does, so it is a later step.
-- - Messages: frontend/src/hooks/useMessages.ts. Unread: frontend/src/hooks/useUnread.ts. A
--   React state is a field, an update function is applied at once; a request and the handling of
--   its reply are two operations.
-- - Servers: frontend/src/hooks/useServers.ts. Servers/Flows: its handlers, where what a handler
--   awaits is a request. Servers/Run: any series of acts and answers.
-- - Voice: frontend/src/hooks/useVoice.ts. Voice/Lists, Voice/Presence: who is in which channel;
--   a call of `handleJoinVoice` or `handleLeaveVoice` keeps the channel in which it was begun
--   until its answer.
-- - Typing: frontend/src/hooks/useTypingIndicator.ts.
-- - Notify/Rules, Notify/Leader, Notify/Sound: rules.ts, leader.ts and sound.ts of
--   frontend/src/services/notifications.
-- - Playlist: frontend/src/services/playlistService.ts. Quality:
--   frontend/src/services/connectionQuality.ts.
-- - Call: `SfuCallClient`. Call/State: its fields. Call/Video: the tiles and the video
--   subscriptions. Call/Signals: the queue of descriptions and candidates. Call/Session: `join`,
--   `leave`, `rejoin`, `runSessionRecovery` and `teardownPeerConnection`; what an async function
--   waits for is a task, and each promise that settles is a step. Call/Media: the camera and the
--   screen share. Call/Run: any sequence of calls, events and settled promises. What the browser
--   and the server answer is an argument of a step. In Call/Session/Closed, Call/Video/Closed,
--   Call/Signals/Closed and Call/Run/Closed a record lists the changes that the client's
--   functions are made of; a predicate that fills it is an invariant.
-- - Prelude: names and lemmas that the others share. Tests: runs on small inputs, and each
--   theorem at a concrete input.
--
-- Functions are total, by structural recursion; there is no fuel, and the number of promises
-- that a call waits for is bounded by a theorem. Numbers are natural numbers:
-- ids and times are not negative in this program. Where the code subtracts times, the comparison
-- is written as a sum, so that a clock that was set back is covered. Arguments stand for what is
-- outside the code: `Date.now()`, `Math.random()`, whether a token is at hand, whether the
-- browser's storage takes a value.
--
-- Not modelled: the server (cmd, internal, types, utils), the components and pages (they
-- render), the camera's facing, the noise suppression and the quality samples of a call (the
-- rest of services/sfuCallClient.ts, services/localCapture.ts), the buttons of the camera and
-- the screen and the volumes of hooks/useVoice.ts, the users online of hooks/useServers.ts,
-- hooks/useDMs.ts, hooks/useMessageSearch.ts, services/authToken.ts, services/links.ts,
-- services/mentions.ts, the media player's hook, and the modules that only call fetch or the browser. The texts of a
-- connection's quality and its statistics reader, `searchMessages`, and the audio elements of
-- sound.ts are left out of the files named above.
pub mod Prelude
pub mod Text
pub mod Json
pub mod Wire
pub mod Socket
pub mod Unread
pub mod Messages
pub mod Playlist
pub mod Quality
pub mod Typing
pub mod Call
pub mod Servers
pub mod Voice
mod Tests
pub mod Notify
