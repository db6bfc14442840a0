-- ===== src/Call/Signals/Closed.antt =====
-- What the handlers of the signals keep.
use mini_discord.Prelude.{
  ℕ, ◌==◌, ◌≡◌, refl, Bool, true, false, List, [], ◌∷◌, ◌++◌, Option, none, some, arith, is_some,
  inl, inr, Bool-cases,
}
use mini_discord.Call.State.{Peer, CallClient, answer, send}
use mini_discord.Call.Signals.{
  Signal, offered, answered, candidate, Handling, describing, adding, adding_one, answering,
  replying, SignalQueue, begin, settle_handler, pump, enqueue_signal, settle_signal, settle_current,
  is_described, flush, flushed, flush_pending_candidates, give, give_to, describe,
  begin_description,
}

pub record SignalLaws (P : CallClient → Type 0) : Type 0 where
  pub answers : (session : ℕ) (s : CallClient) → P s → P (send (answer session) s)
  pub peer_changes :
      (o : Option Peer) (cs : List ℕ) (s : CallClient)
      → is_some o ≡ is_some s.pc
      → P s
      → P (record s { pc = o; pending_candidates = cs })

is_some-give_to : (c : ℕ) (o : Option Peer) → is_some (give_to c o) ≡ is_some o
is_some-give_to c none = refl
is_some-give_to c (some p) = refl

is_some-describe : (id : ℕ) (o : Option Peer) → is_some (describe id o) ≡ is_some o
is_some-describe id none = refl
is_some-describe id (some p) = ground arith

module _ (P : CallClient → Type 0) (laws : SignalLaws P) where
  give-P :
      (c : ℕ) (cs : List ℕ) (s : CallClient)
      → P s
      → P (give c (record s { pending_candidates = cs }))
  give-P c cs s p = laws.peer_changes (give_to c s.pc) cs s (is_some-give_to c s.pc) p

  flushed-P :
      (is_offer : Bool) (o : Option Peer) (s : CallClient) → P s → P (flushed is_offer o s).0
  flushed-P is_offer none s p = p
  flushed-P false (some x) s p = p
  flushed-P true (some x) s p = p

  flush-P :
      (is_offer : Bool) (o : Option Peer) (cs : List ℕ) (s : CallClient)
      → P s
      → P (flush is_offer o cs s).0
  flush-P is_offer none cs s p = flushed-P is_offer none s p
  flush-P is_offer (some x) [] s p = flushed-P is_offer (some x) s p
  flush-P is_offer (some x) (c ∷ cs) s p = give-P c [] s p

  begin_description-P :
      (is_offer : Bool) (o : Option Peer) (s : CallClient)
      → P s
      → P (begin_description is_offer o s).0
  begin_description-P is_offer none s p = p
  begin_description-P is_offer (some x) s p = p

  begin-P : (x : Signal) (s : CallClient) → P s → P (begin x s).0
  unfolding begin
  begin-P (offered k) s p = elim (Bool-cases (k == s.session_id)) [
    | inl e ↦ rw e (begin_description-P true s.pc s p)
    | inr e ↦ rw e p
  ]
  begin-P (answered k) s p = elim (Bool-cases (k == s.session_id)) [
    | inl e ↦ rw e (begin_description-P false s.pc s p)
    | inr e ↦ rw e p
  ]
  begin-P (candidate k c) s p = elim (Bool-cases (k == s.session_id)) [
    | inr e ↦ rw e p
    | inl e ↦ elim (Bool-cases (is_described s.pc)) [
      | inl d ↦ rw (e, d) (give-P c s.pending_candidates s p)
      | inr d ↦ rw (e, d) (laws.peer_changes s.pc (s.pending_candidates ++ c ∷ []) s refl p)
    ]
  ]

  settle_handler-P : (ok : Bool) (h : Handling) (s : CallClient) → P s → P (settle_handler ok h s).0
  unfolding settle_handler flush_pending_candidates
  settle_handler-P false (describing is_offer id) s p = p
  settle_handler-P true (describing is_offer id) s p =
      let s₁ : CallClient = record s { pc = describe id s.pc } in
      flush-P is_offer s₁.pc s₁.pending_candidates s₁
        (laws.peer_changes (describe id s.pc) s.pending_candidates s (is_some-describe id s.pc) p)
  settle_handler-P ok (adding is_offer []) s p = flushed-P is_offer s.pc s p
  settle_handler-P ok (adding is_offer (c ∷ cs)) s p = give-P c s.pending_candidates s p
  settle_handler-P ok adding_one s p = p
  settle_handler-P false answering s p = p
  settle_handler-P true answering s p = laws.answers s.session_id s p
  settle_handler-P ok replying s p = p

  pump-P : (xs : List Signal) (s : CallClient) (h : Option Handling) → P s → P (pump xs s h).client
  unfolding pump
  pump-P xs s (some h) p = p
  pump-P [] s none p = p
  pump-P (x ∷ xs) s none p = pump-P xs (begin x s).0 (begin x s).1 (begin-P x s p)

  pub enqueue_signal-P : (x : Signal) (q : SignalQueue) → P q.client → P (enqueue_signal x q).client
  unfolding enqueue_signal
  enqueue_signal-P x q p = pump-P (q.waiting ++ x ∷ []) q.client q.current p

  settle_current-P :
      (ok : Bool) (h : Option Handling) (q : SignalQueue)
      → P q.client
      → P (settle_current ok h q).client
  unfolding settle_current
  settle_current-P ok none q p = p
  settle_current-P ok (some h) q p =
      let next = settle_handler ok h q.client in
      pump-P q.waiting next.0 next.1 (settle_handler-P ok h q.client p)

  pub settle_signal-P : (ok : Bool) (q : SignalQueue) → P q.client → P (settle_signal ok q).client
  unfolding settle_signal
  settle_signal-P ok q p = settle_current-P ok q.current q p
