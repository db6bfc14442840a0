-- ===== src/Socket/Dispatch/Induction.antt =====
-- The induction rule for `ws.onmessage`.
use mini_discord.Prelude.{
  String, ◌≡◌, refl, Bool, true, false, Option, none, some, Option-cases, Bool-cases, inl, inr,
}
use mini_discord.Json.{Json}
use mini_discord.Wire.{DmChannel}
use mini_discord.Socket.{ChatSocket, PendingCommand, Outcome, Emission, emit, finish}
use mini_discord.Socket.Dispatch.{
  EventKind, message, message_embeds, message_edited, ack, EchoedId, WsServerEvent, is_stale,
  on_message, dispatch, kind_of, reply_to, open_dm_reply, reject_with, handle_socket_error, stray,
  acknowledge, pending_is, stale_for, decode_message, decode_embeds, decode_edited, emit_if,
  emit_some, report, unknown_action, has_error,
}

-- What the server sends changes the socket by calls of listeners and by finishing the pending
-- command, and in no other way.
module _ {ℓ} (P : ChatSocket → Type ℓ)
    (emits : (e : Emission) (s : ChatSocket) → P s → P (emit e s))
    (finishes : (p : PendingCommand) (o : Outcome) (s : ChatSocket)
      → s.pending ≡ some p
      → P s
      → P (finish p o s)) where
  emit_if_ind : (ok : Bool) (e : Emission) (s : ChatSocket) → P s → P (emit_if ok e s)
  emit_if_ind true e s h = emits e s h
  emit_if_ind false e s h = h

  emit_some_ind : (e : Option Emission) (s : ChatSocket) → P s → P (emit_some e s)
  emit_some_ind none s h = h
  emit_some_ind (some e) s h = emits e s h

  reply_to_ind :
      (p : Option PendingCommand) (fits : Bool) (content : Json) (s : ChatSocket)
      → s.pending ≡ p
      → P s
      → P (reply_to p fits content s)
  unfolding reply_to
  reply_to_ind none fits content s e h = h
  reply_to_ind (some p) true content s e h = finishes p _ s e h
  reply_to_ind (some p) false content s e h = h

  open_dm_reply_ind :
      (dm : Option DmChannel) (content : Json) (s : ChatSocket)
      → P s
      → P (open_dm_reply dm content s)
  unfolding open_dm_reply
  open_dm_reply_ind none content s h = h
  open_dm_reply_ind (some dm) content s h =
      reply_to_ind s.pending _ content (emit (Emission.dm_opened dm) s) refl (emits _ s h)

  report_ind : (text : Json) (hidden : Bool) (s : ChatSocket) → P s → P (report text hidden s)
  report_ind text true s h = h
  report_ind text false s h = emits _ s h

  reject_with_ind :
      (p : Option PendingCommand) (text : Json) (hidden : Bool) (s : ChatSocket)
      → s.pending ≡ p
      → P s
      → P (reject_with p text hidden s)
  unfolding reject_with
  reject_with_ind none text hidden s e h = report_ind text hidden s h
  reject_with_ind (some p) text hidden s e h = report_ind text hidden _ (finishes p _ s e h)

  handle_socket_error_ind :
      (text : Json) (echoed : EchoedId) (s : ChatSocket)
      → P s
      → P (handle_socket_error text echoed s)
  unfolding handle_socket_error
  handle_socket_error_ind text echoed s h = elim (Bool-cases (stale_for echoed s.pending)) [
    | inl stale ↦ rw stale (emits _ s h)
    | inr fresh ↦ rw fresh (elim (Bool-cases (pending_is "get_user_info" s.pending)) [
      | inl info ↦ rw info (elim (Option-cases (unknown_action text)) [
        | inl e ↦ rw e h
        | inr (hidden, e) ↦ rw e (reject_with_ind s.pending text hidden s refl h)
      ])
      | inr e ↦ rw e (reject_with_ind s.pending text false s refl h)
    ])
  ]

  stray_ind :
      (blank : String → Bool) (m : WsServerEvent) (s : ChatSocket) → P s → P (stray blank m s)
  unfolding stray
  stray_ind blank m s h = elim (Bool-cases (has_error blank m.error)) [
    | inl e ↦ rw e (handle_socket_error_ind m.error m.request_id s h)
    | inr e ↦ rw e h
  ]

  acknowledge_ind :
      (blank : String → Bool) (p : Option PendingCommand) (m : WsServerEvent) (s : ChatSocket)
      → s.pending ≡ p
      → P s
      → P (acknowledge blank p m s)
  unfolding acknowledge
  acknowledge_ind blank none m s e h = stray_ind blank m s h
  acknowledge_ind blank (some p) m s e h = elim (Bool-cases (is_stale m.request_id p.request_id)) [
    | inl stale ↦ rw stale h
    | inr fresh ↦ rw fresh (finishes p _ s e h)
  ]

  dispatch_ind :
      (blank : String → Bool) (now : String) (kind : EventKind) (m : WsServerEvent) (s : ChatSocket)
      → P s
      → P (dispatch blank now kind m s)
  unfolding dispatch
  dispatch_ind blank now message m s h = emit_some_ind (decode_message now m.content) s h
  dispatch_ind blank now message_embeds m s h = emit_some_ind (decode_embeds m.content) s h
  dispatch_ind blank now message_edited m s h = emit_some_ind (decode_edited now m.content) s h
  dispatch_ind blank now EventKind.dm_opened m s h = open_dm_reply_ind _ m.content s h
  dispatch_ind blank now EventKind.dm_list m s h = reply_to_ind s.pending _ m.content s refl h
  dispatch_ind blank now EventKind.dm_closed m s h = reply_to_ind s.pending _ m.content s refl h
  dispatch_ind blank now EventKind.user_search m s h = reply_to_ind s.pending _ m.content s refl h
  dispatch_ind blank now EventKind.sfu_error m s h = emits _ s h
  dispatch_ind blank now EventKind.error m s h = handle_socket_error_ind _ m.request_id s h
  dispatch_ind blank now ack m s h = acknowledge_ind blank s.pending m s refl h
  dispatch_ind blank now EventKind.other m s h = stray_ind blank m s h
  dispatch_ind blank now _ m s h = emit_if_ind _ _ s h

  pub on_message_ind :
      (blank : String → Bool) (now : String) (m : Option WsServerEvent) (s : ChatSocket)
      → P s
      → P (on_message blank now m s)
  unfolding on_message
  on_message_ind blank now none s h = h
  on_message_ind blank now (some m) s h = dispatch_ind blank now (kind_of m.event) m s h
