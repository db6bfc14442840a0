-- ===== src/Unread/Counters.antt =====
-- What one incoming message does to the unread counters.
use mini_discord.Prelude.{
  set_entry, entry, keep, ℕ, ◌+◌, ◌==◌, ◌≡◌, Bool, false, ◌&&◌, List, [], ◌∷◌, arith, if◌then◌else◌,
}
use mini_discord.Wire.{Message, Channel}
use mini_discord.Unread.{
  add_count, server_counts, server_map, unread_by_server, Unread, Page, incoming, total_unread,
  is_user,
}

total_unread-set_entry :
    (c v : ℕ) (counts : List (ℕ × ℕ))
    → total_unread (set_entry c v counts) + entry 0 c counts ≡ total_unread counts + v
unfolding total_unread
total_unread-set_entry c v [] = omega arith
total_unread-set_entry c v (kv ∷ rest) = let ih = total_unread-set_entry c v rest in ground arith

entry-set_entry :
    (c v k : ℕ) (counts : List (ℕ × ℕ))
    → entry 0 k (set_entry c v counts) ≡ (if k == c then v else entry 0 k counts)
entry-set_entry c v k [] = ground arith
entry-set_entry c v k (kv ∷ rest) = let ih = entry-set_entry c v k rest in ground arith

-- A message of another user, in a channel that is not being read, adds one to the total of unread
-- messages and to the counter of its own channel, and nothing to the counter of any other.
pub incoming-total_unread :
    (page : Page) (is_open : Bool) (now : ℕ) (message : Message) (s : Unread) (k : ℕ)
    → is_user page.current_user_id message.author_id ≡ false
    → (message.channel_id == page.selected_channel_id && page.is_visible) ≡ false
    → let t = incoming page is_open now message s in
      (total_unread t.unread_by_channel ≡ total_unread s.unread_by_channel + 1)
      × (entry 0 k t.unread_by_channel
          ≡ entry 0 k s.unread_by_channel + (if k == message.channel_id then 1 else 0))
unfolding incoming
incoming-total_unread page is_open now message s k other away =
    let c = message.channel_id in
    let counts = s.unread_by_channel in
    let total = total_unread-set_entry c (entry 0 c counts + 1) counts in
    let own = entry-set_entry c (entry 0 c counts + 1) k counts in
    rw (other, away) (ground (arith, total), ground (arith, own))

-- The channels that no server is known for.
abbrev pub unassigned : (ℕ → ℕ) → List (ℕ × ℕ) → List (ℕ × ℕ)
unassigned server_of = keep (λ kv. server_of kv.0 == 0)

add_count-total :
    (server count : ℕ) (acc : List (ℕ × ℕ))
    → total_unread (add_count server count acc) + (if server == 0 then count else 0)
      ≡ total_unread acc + count
unfolding total_unread
add_count-total server count acc =
    let total = total_unread-set_entry server (entry 0 server acc + count) acc in
    ground (arith, total)

server_counts-total :
    (server_of : ℕ → ℕ) (counts acc : List (ℕ × ℕ))
    → total_unread (server_counts server_of counts acc) + total_unread (unassigned server_of counts)
      ≡ total_unread acc + total_unread counts
unfolding total_unread
server_counts-total server_of [] acc = omega arith
server_counts-total server_of (kv ∷ rest) acc =
    let first = add_count-total (server_of kv.0) kv.1 acc in
    let later = server_counts-total server_of rest (add_count (server_of kv.0) kv.1 acc) in
    ground (arith, first, later)

-- The unread messages of the servers, together with those of the channels that no server is known
-- for, are all the unread messages.
pub unread_by_server-total :
    (servers : List (ℕ × List Channel)) (s : Unread)
    → total_unread (unread_by_server servers s)
        + total_unread (unassigned (server_map servers s) s.unread_by_channel)
      ≡ total_unread s.unread_by_channel
unfolding unread_by_server total_unread
unread_by_server-total servers s =
    omega (arith, server_counts-total (server_map servers s) s.unread_by_channel [])
