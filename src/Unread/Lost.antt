-- ===== src/Unread/Lost.antt =====
-- Read marks that the socket drops (frontend/src/hooks/useUnread.ts, `sendNow`).
use mini_discord.Prelude.{
  ℕ, ◌≤◌, ◌<◌, ◌==◌, ◌≡◌, refl, false, ◌||◌, List, [], ◌∷◌, ◌++◌, some, if◌then◌else◌, put, arith,
  includes,
}
use mini_discord.Unread.{Unread, Mark, send_now}
use mini_discord.Unread.Marks.{Action, run, ids, ids-append, run-Keeps}

-- The message of the channel is not marked, and taken for marked.
abbrev Lost : ℕ → ℕ → List Mark → (ℕ → ℕ) → Type 0
Lost c m marks last = (includes m (ids c marks) ≡ false) × (m ≤ last c)

includes-append :
    (m : ℕ) (xs ys : List ℕ) → includes m (xs ++ ys) ≡ (includes m xs || includes m ys)
includes-append m [] ys = refl
includes-append m (x ∷ xs) ys = ground (arith, includes-append m xs ys)

sent-Lost :
    (c m k n : ℕ) (marks : List Mark) (last : ℕ → ℕ)
    → last k < n
    → Lost c m marks last
    → Lost c m (marks ++ record { channel_id = k; message_id = n } ∷ []) (put k n last)
sent-Lost c m k n marks last lt h =
    rw
      (
        ids-append c marks (record { channel_id = k; message_id = n }),
        includes-append m (ids c marks) (if c == k then n ∷ [] else []),
      )
      (ground (arith, h, lt))

skipped-Lost :
    (c m k n : ℕ) (marks : List Mark) (last : ℕ → ℕ)
    → last k < n
    → Lost c m marks last
    → Lost c m marks (put k n last)
skipped-Lost c m k n marks last lt h = (h.0, ground (arith, h, lt))

-- A mark of a message that was not marked yet, and that is waiting when `sendNow` runs while the
-- WebSocket is not open, is lost: whatever happens afterwards, also when the user reads the channel
-- again over an open WebSocket, no mark of that message is sent.
pub lost_mark :
    (now c m : ℕ) (after : List Action) (s : Unread)
    → s.pending c ≡ some m
    → s.last_sent c < m
    → includes m (ids c s.marks) ≡ false
    → includes m (ids c (run after (send_now false now c s)).marks) ≡ false
unfolding send_now
lost_mark now c m after s p lt fresh =
    (run-Keeps (Lost c m) (sent-Lost c m) (skipped-Lost c m) after (send_now false now c s)
      (rw p (ground (arith, lt, fresh)))).0
