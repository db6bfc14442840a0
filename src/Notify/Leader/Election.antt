-- ===== src/Notify/Leader/Election.antt =====
-- The election: who leads once the tabs have heard one another.
use mini_discord.Prelude.{
  ℕ, ◌≤◌, ◌≡◌, ◌≢◌, ◌↔◌, refl, sym, subst, ◌∙◌, true, false, List, [], ◌∷◌, some, All, includes,
  arith, Bool-cases, inl, inr,
}
use mini_discord.Notify.Leader.{
  LeaderMessage, heartbeat, leaving, Tab, init_leader_election, on_message, claim, watchdog, stop,
}

-- A tab hears the heartbeats of the given ids, one after the other.
pub hear : List ℕ → Tab → Tab
hear [] t = t
hear (id ∷ ids) t = hear ids (on_message (heartbeat id) t).0

on_heartbeat-leads :
    (id : ℕ) (t : Tab)
    → ((on_message (heartbeat id) t).0.my_id ≡ t.my_id)
      × (((on_message (heartbeat id) t).0.is_leader ≡ true)
          ↔ ((t.is_leader ≡ true) × (t.my_id ≤ id)))
unfolding on_message
on_heartbeat-leads id t = ground arith

hear_from :
    (n : ℕ) (ids : List ℕ) (t : Tab)
    → t.my_id ≡ n
    → ((hear ids t).is_leader ≡ true) ↔ ((t.is_leader ≡ true) × All (λ id. n ≤ id) ids)
unfolding hear
hear_from n [] t e = ((λ h. (h, tt)), (λ h. h.0))
hear_from n (id ∷ ids) t e =
    let (same, here) = on_heartbeat-leads id t in
    let (out, back) = hear_from n ids (on_message (heartbeat id) t).0 (same ∙ e) in
    (
      (λ h. let (l, later) = out h in ((here.0 l).0, (subst (λ m. m ≤ id) e (here.0 l).1, later))),
      (λ h. back (here.1 (h.0, subst (λ m. m ≤ id) (sym e) h.1.0), h.1.1)),
    )

-- A leader that hears heartbeats stays leader exactly when none has an id smaller than its own, in
-- whatever order they come; and no tab becomes leader by them.
pub hear-leads :
    (ids : List ℕ) (t : Tab)
    → ((hear ids t).is_leader ≡ true) ↔ ((t.is_leader ≡ true) × All (λ id. t.my_id ≤ id) ids)
hear-leads ids t = hear_from t.my_id ids t refl

All-includes :
    (n : ℕ) (ids : List ℕ) (id : ℕ) → All (λ i. n ≤ i) ids → includes id ids ≡ true → n ≤ id
All-includes n [] id h k = cc
All-includes n (i ∷ ids) id h k = ground (arith, All-includes n ids id h.1)

-- Of two tabs with different ids that have each heard heartbeats only, from any tabs, and the other's
-- among them, one does not lead if the other does.
pub hear_unique :
    (t u : Tab) (at_t at_u : List ℕ)
    → t.my_id ≢ u.my_id
    → includes u.my_id at_t ≡ true
    → includes t.my_id at_u ≡ true
    → (hear at_t t).is_leader ≡ true
    → (hear at_u u).is_leader ≡ false
hear_unique t u at_t at_u d ht hu lt = elim (Bool-cases (hear at_u u).is_leader) [
  | inl lu ↦ ground (
    arith,
    d,
    All-includes t.my_id at_t u.my_id ((hear-leads at_t t).0 lt).1 ht,
    All-includes u.my_id at_u t.my_id ((hear-leads at_u u).0 lu).1 hu,
  )
  | inr e ↦ e
]

-- What a tab goes through after its start, the sending apart.
pub data LeaderEvent : Type 0 where
  heard : LeaderMessage → LeaderEvent
  claimed watchdog_fired : LeaderEvent

unfoldable pub react : LeaderEvent → Tab → Tab
react (heard m) t = (on_message m t).0
react claimed t = (claim t).0
react watchdog_fired t = (watchdog t).0

unfoldable pub react_all : List LeaderEvent → Tab → Tab
unfolding react
react_all [] t = t
react_all (e ∷ es) t = react_all es (react e t)

-- The tab beats exactly while it leads.
abbrev Beats : Tab → Type 0
Beats t = t.heartbeating ≡ t.is_leader

react-Beats : (e : LeaderEvent) (t : Tab) → Beats t → Beats (react e t)
unfolding react on_message claim watchdog
react-Beats (heard (heartbeat id)) t h = ground arith
react-Beats (heard (leaving id)) t h = ground arith
react-Beats claimed t h = ground arith
react-Beats watchdog_fired t h = ground arith

react_all-Beats : (es : List LeaderEvent) (t : Tab) → Beats t → Beats (react_all es t)
unfolding react_all
react_all-Beats [] t h = h
react_all-Beats (e ∷ es) t h = react_all-Beats es (react e t) (react-Beats e t h)

-- From its start on, provided that no heartbeat timer of an earlier start runs, a tab has its
-- heartbeat timer armed exactly while it leads, whatever it hears.
pub heartbeating-is_leader :
    (id : ℕ) (t : Tab) (es : List LeaderEvent)
    → t.heartbeating ≡ false
    → (react_all es (init_leader_election id t)).heartbeating
      ≡ (react_all es (init_leader_election id t)).is_leader
unfolding init_leader_election
heartbeating-is_leader id t es h = react_all-Beats es (init_leader_election id t) h

-- A tab that led, was stopped and is started again claims no leadership when the timer of 300 ms
-- fires: the id of its earlier leader still stands in `leaderId`.
pub restart_claims_nothing :
    (id old : ℕ) (t : Tab)
    → t.leader_id ≡ some old
    → ((claim (init_leader_election id (stop t))).0.is_leader ≡ false)
      × ((claim (init_leader_election id (stop t))).1 ≡ [])
unfolding claim init_leader_election stop
restart_claims_nothing id old t e = ground arith
