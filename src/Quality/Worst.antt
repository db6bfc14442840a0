-- ===== src/Quality/Worst.antt =====
-- The worst of several levels, and of several links.
use mini_discord.Prelude.{
  ℕ, ◌≤◌, ◌≡◌, ◌≢◌, refl, sym, ap, subst, ◌∙◌, ◌↔◌, Bool, false, List, [], ◌∷◌, Option, none, some,
  All, arith,
}
use mini_discord.Quality.{
  good, medium, bad, QualityLevel, measured, connecting, disconnected, rank_of, PeerQuality, visit,
  visit_all, conclude, aggregate_quality,
}

abbrev best : Option PeerQuality → ℕ
best none = 0
best (some q) = rank_of q.level

-- The worst link so far is a measured one.
abbrev IsSeen : Option PeerQuality → Type 0
IsSeen none = Unit {0}
IsSeen (some q) = 1 ≤ rank_of q.level

visit-bound :
    (l : QualityLevel) (item : PeerQuality) (acc : Option PeerQuality × Bool)
    → item.level ≡ l
    → IsSeen acc.0
    → (rank_of l ≤ best (visit l item acc).0)
      × (best acc.0 ≤ best (visit l item acc).0)
      × IsSeen (visit l item acc).0
      × ((visit l item acc).1 ≡ false → (acc.1 ≡ false) × (l ≢ connecting))
visit-bound (measured good) item (none, c) e h = ground (arith, e)
visit-bound (measured medium) item (none, c) e h = ground (arith, e)
visit-bound (measured bad) item (none, c) e h = ground (arith, e)
visit-bound (measured good) item (some q, c) e h = ground (arith, e, h)
visit-bound (measured medium) item (some q, c) e h = ground (arith, e, h)
visit-bound (measured bad) item (some q, c) e h = ground (arith, e, h)
visit-bound connecting item acc e h = ground (arith, e, h)
visit-bound disconnected item acc e h = ground (arith, e, h)

visit_all-bound :
    (items : List PeerQuality) (acc : Option PeerQuality × Bool)
    → IsSeen acc.0
    → All (λ i. rank_of i.level ≤ best (visit_all items acc).0) items
      × (best acc.0 ≤ best (visit_all items acc).0)
      × IsSeen (visit_all items acc).0
      × ((visit_all items acc).1 ≡ false → (acc.1 ≡ false) × All (λ i. i.level ≢ connecting) items)
visit_all-bound [] acc h = (tt, omega arith, h, λ e. (e, tt))
visit_all-bound (item ∷ items) acc h =
    let next = visit item.level item acc in
    let (here, low, seen, flag) = visit-bound item.level item acc refl h in
    let (bound, up, last, flags) = visit_all-bound items next seen in
    (
      (omega (arith, here, up), bound),
      omega (arith, low, up),
      last,
      λ e. ((flag (flags e).0).0, ((flag (flags e).0).1, (flags e).1)),
    )

conclude-best : (r : Option PeerQuality × Bool) → rank_of (conclude r).level ≡ best r.0
conclude-best (none, c) = ground arith
conclude-best (some q, c) = refl

conclude-disconnected :
    (r : Option PeerQuality × Bool) → IsSeen r.0 → (conclude r).level ≡ disconnected → r.1 ≡ false
conclude-disconnected (none, c) h e = ground arith
conclude-disconnected (some q, c) h e = ground (arith, h, e)

All-disconnected :
    (items : List PeerQuality)
    → All (λ i. rank_of i.level ≤ 0) items
    → All (λ i. i.level ≢ connecting) items
    → All (λ i. i.level ≡ disconnected) items
All-disconnected [] b c = tt
All-disconnected (item ∷ items) b c =
    (unmeasured item.level b.0 c.0, All-disconnected items b.1 c.1)
  where
    unmeasured : (l : QualityLevel) → rank_of l ≤ 0 → l ≢ connecting → l ≡ disconnected
    unmeasured (measured good) le n = ground (arith, le)
    unmeasured (measured medium) le n = ground (arith, le)
    unmeasured (measured bad) le n = ground (arith, le)
    unmeasured connecting le n = elim (n refl) [ ]
    unmeasured disconnected le n = refl

abbrev Worst : List PeerQuality → PeerQuality → Type 0
Worst items q =
    All (λ i. rank_of i.level ≤ rank_of q.level) items
    × ((q.level ≡ disconnected) ↔ All (λ i. i.level ≡ disconnected) items)

visit_all-disconnected :
    (items : List PeerQuality)
    → All (λ i. i.level ≡ disconnected) items
    → visit_all items (none, false) ≡ (none, false)
visit_all-disconnected [] h = refl
visit_all-disconnected (item ∷ items) h = rw h.0 (visit_all-disconnected items h.1)

conclude-Worst : (items : List PeerQuality) → Worst items (conclude (visit_all items (none, false)))
conclude-Worst items =
    let r = visit_all items (none, false) in
    let (bound, up, seen, flags) = visit_all-bound items (none, false) tt in
    let e = conclude-best r in
    (
      subst (λ n. All (λ i. rank_of i.level ≤ n) items) (sym e) bound,
      (
        λ d.
            All-disconnected items
              (subst (λ n. All (λ i. rank_of i.level ≤ n) items) (sym e ∙ ap rank_of d) bound)
              (flags (conclude-disconnected r seen d)).1,
        λ all. ap (λ t. (conclude t).level) (visit_all-disconnected items all),
      ),
    )

-- The quality of "your connection" is no better than that of any of its links, and it is
-- "disconnected" exactly when all of them are.
pub aggregate_quality-worst :
    (items : List PeerQuality) {q : PeerQuality}
    → aggregate_quality items ≡ some q
    → All (λ i. rank_of i.level ≤ rank_of q.level) items
      × ((q.level ≡ disconnected) ↔ All (λ i. i.level ≡ disconnected) items)
unfolding aggregate_quality
aggregate_quality-worst [] e = ground (arith, e)
aggregate_quality-worst (item ∷ items) e =
    subst (Worst (item ∷ items)) (ap found e) (conclude-Worst (item ∷ items))
  where
    found : Option PeerQuality → PeerQuality
    found none = item
    found (some q) = q
