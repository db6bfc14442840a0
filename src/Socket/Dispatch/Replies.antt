-- ===== src/Socket/Dispatch/Replies.antt =====
-- Which event of the server settles which command.
use mini_discord.Prelude.{
  String, str_eq, ◌≡◌, refl, sym, subst, if◌then◌else◌, append-nil, Bool, true, false, ◌&&◌, [],
  ◌∷◌, ◌++◌, none, some, ◌⊎◌, inl, inr, arith, Bool-cases,
}
use mini_discord.Json.{Json}
use mini_discord.Wire.{DmChannel}
use mini_discord.Wire.Decode.{to_dm_channel}
use mini_discord.Socket.{
  ChatSocket, PendingCommand, Outcome, Emission, emit, finish, settle, flush_queue, resolved,
}
use mini_discord.Socket.Dispatch.{
  EventKind, dm_opened, error, ack, other, EchoedId, WsServerEvent, is_stale, on_message, dispatch,
  kind_of, reply_to, open_dm_reply, handle_socket_error, stray, acknowledge, pending_is, same_peer,
  has_error,
}

-- What settling the pending command by an event leaves alone.
abbrev pub Untouched : ChatSocket → ChatSocket → Type 0
Untouched s t =
    (t.pending ≡ s.pending) × (t.queue ≡ s.queue) × (t.settled ≡ s.settled) × (t.sent ≡ s.sent)

-- The kinds of event whose handling compares request ids.
abbrev pub ComparesIds : EventKind → Type 0
ComparesIds kind = (kind ≡ ack) ⊎ ((kind ≡ error) ⊎ (kind ≡ other))

handle_socket_error-Untouched :
    (text : Json) (echoed : EchoedId) (p : PendingCommand) (s : ChatSocket)
    → s.pending ≡ some p
    → is_stale echoed p.request_id ≡ true
    → Untouched s (handle_socket_error text echoed s)
unfolding handle_socket_error
handle_socket_error-Untouched text echoed p s e h = ground arith

stale_dispatch-Untouched :
    (blank : String → Bool) (now : String) (kind : EventKind) (m : WsServerEvent)
    (p : PendingCommand) (s : ChatSocket)
    → ComparesIds kind
    → s.pending ≡ some p
    → is_stale m.request_id p.request_id ≡ true
    → Untouched s (dispatch blank now kind m s)
unfolding dispatch acknowledge stray
stale_dispatch-Untouched blank now ack m p s k e h = ground arith
stale_dispatch-Untouched blank now error m p s k e h =
    handle_socket_error-Untouched _ m.request_id p s e h
stale_dispatch-Untouched blank now other m p s k e h = elim (Bool-cases (has_error blank m.error)) [
  | inl t ↦ rw t (handle_socket_error-Untouched m.error m.request_id p s e h)
  | inr t ↦ rw t (refl, refl, refl, refl)
]
stale_dispatch-Untouched blank now _ m p s k e h = absurd (ground arith)

-- An event whose request id is compared, so an `ack`, an `error`, or one with no case of its own, and
-- that echoes another id than that of the pending command, settles no command, sends none, and leaves
-- the queue as it is.
pub on_message-stale :
    (blank : String → Bool) (now : String) (m : WsServerEvent) (p : PendingCommand) (s : ChatSocket)
    → ComparesIds (kind_of m.event)
    → s.pending ≡ some p
    → is_stale m.request_id p.request_id ≡ true
    → Untouched s (on_message blank now (some m) s)
unfolding on_message
on_message-stale blank now m p s k e h =
    stale_dispatch-Untouched blank now (kind_of m.event) m p s k e h

flush_queue-settled : (s : ChatSocket) → (flush_queue s).settled ≡ s.settled
unfolding flush_queue
flush_queue-settled s = ground arith

finish-settled :
    (p : PendingCommand) (o : Outcome) (s : ChatSocket)
    → (finish p o s).settled ≡ s.settled ++ (p.promise, o) ∷ []
unfolding finish
finish-settled p o s = flush_queue-settled (record (settle p o s) { pending = none })

reply_to-settled :
    (p : PendingCommand) (fits : Bool) (content : Json) (s : ChatSocket)
    → (reply_to (some p) fits content s).settled
      ≡ s.settled ++ (if fits then (p.promise, resolved content) ∷ [] else [])
unfolding reply_to
reply_to-settled p true content s = finish-settled p (resolved content) s
reply_to-settled p false content s = sym (append-nil s.settled)

reply_to-pending :
    (dm : DmChannel) (content : Json) (p : PendingCommand) (s : ChatSocket)
    → s.pending ≡ some p
    → (reply_to s.pending
        (pending_is "open_dm" s.pending && same_peer s.pending dm.peer_user_id)
        content
        s).settled
      ≡ s.settled
        ++ (if str_eq p.action "open_dm" && same_peer (some p) dm.peer_user_id
            then (p.promise, resolved content) ∷ []
            else [])
reply_to-pending dm content p s e =
    subst
      (λ o.
        (reply_to o (pending_is "open_dm" o && same_peer o dm.peer_user_id) content s).settled
        ≡ s.settled
          ++ (if str_eq p.action "open_dm" && same_peer (some p) dm.peer_user_id
              then (p.promise, resolved content) ∷ []
              else []))
      (sym e) (reply_to-settled p _ content s)

open_dm_reply-settled :
    (dm : DmChannel) (content : Json) (p : PendingCommand) (s : ChatSocket)
    → s.pending ≡ some p
    → (open_dm_reply (some dm) content s).settled
      ≡ s.settled
        ++ (if str_eq p.action "open_dm" && same_peer (some p) dm.peer_user_id
            then (p.promise, resolved content) ∷ []
            else [])
unfolding open_dm_reply
open_dm_reply-settled dm content p s e =
    reply_to-pending dm content p (emit (Emission.dm_opened dm) s) e

-- A `dm_opened` event resolves the pending command exactly when that is an `open_dm` for the same
-- peer: a broadcast about another conversation settles nothing.
pub on_message-dm_opened :
    (blank : String → Bool) (now : String) (m : WsServerEvent) (dm : DmChannel) (p : PendingCommand)
    (s : ChatSocket)
    → kind_of m.event ≡ dm_opened
    → to_dm_channel m.content ≡ some dm
    → s.pending ≡ some p
    → (on_message blank now (some m) s).settled
      ≡ s.settled
        ++ (if str_eq p.action "open_dm" && same_peer (some p) dm.peer_user_id
            then (p.promise, resolved m.content) ∷ []
            else [])
unfolding on_message dispatch
on_message-dm_opened blank now m dm p s k d e = rw (k, d) (open_dm_reply-settled dm m.content p s e)
