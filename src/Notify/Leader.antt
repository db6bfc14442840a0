-- ===== src/Notify/Leader.antt =====
-- frontend/src/services/notifications/leader.ts: which tab plays sounds. Ids are compared by `===`
-- and `<` alone; they are represented by their rank in that order. What a tab broadcasts is
-- returned beside its new state.
pub mod Election
use mini_discord.Prelude.{
  ℕ, ltb, ◌==◌, Bool, true, false, not, ◌&&◌, List, [], ◌∷◌, Option, none, some, if◌then◌else◌,
}

pub data LeaderMessage : Type 0 where
  heartbeat leaving : ℕ → LeaderMessage

-- The module's variables. `heartbeating` and `watching` say whether the timer is armed.
pub record Tab : Type 0 where
  pub is_leader : Bool
  pub my_id : ℕ
  pub leader_id : Option ℕ
  pub heartbeating : Bool
  pub watching : Bool

unfoldable pub become_leader : Tab → Tab × List LeaderMessage
become_leader t = (
  record t { is_leader = true; leader_id = some t.my_id; heartbeating = true },
  heartbeat t.my_id ∷ [],
)

-- `initLeaderElection` where the browser has `BroadcastChannel`; it leaves `leaderId` as it is.
unfoldable pub init_leader_election : ℕ → Tab → Tab
init_leader_election id t = record t { my_id = id; is_leader = false; watching = true }

-- another tab with a smaller id leads too
abbrev yields : Tab → ℕ → Bool
yields t id = t.is_leader && (not (id == t.my_id) && ltb id t.my_id)

abbrev is_leader_id : Option ℕ → ℕ → Bool
is_leader_id none id = false
is_leader_id (some l) id = id == l

-- `channel.onmessage`
unfoldable pub on_message : LeaderMessage → Tab → Tab × List LeaderMessage
unfolding become_leader
on_message (heartbeat id) t = (
  if yields t id
      then record t {
        leader_id = some id;
        is_leader = false;
        heartbeating = false;
        watching = true;
      }
      else record t { leader_id = some id; watching = true },
  [],
)
on_message (leaving id) t =
    if is_leader_id t.leader_id id then become_leader (record t { watching = false }) else (t, [])

-- The timer of 300 ms after the start.
unfoldable pub claim : Tab → Tab × List LeaderMessage
unfolding become_leader
claim t = elim t.leader_id [ none ↦ become_leader t | some _ ↦ (t, []) ]

-- The watchdog fires.
unfoldable pub watchdog : Tab → Tab × List LeaderMessage
unfolding become_leader
watchdog t = become_leader (record t { watching = false })

-- The heartbeat timer fires, where it is armed.
unfoldable pub beat : Tab → List LeaderMessage
beat t = if t.heartbeating then heartbeat t.my_id ∷ [] else []

-- `beforeunload`
unfoldable pub on_unload : Tab → List LeaderMessage
on_unload t = if t.is_leader then leaving t.my_id ∷ [] else []

-- What `initLeaderElection` returns: the clean-up.
unfoldable pub stop : Tab → Tab
stop t = record t { heartbeating = false; watching = false }
