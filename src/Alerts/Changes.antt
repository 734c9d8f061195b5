-- ===== src/Alerts/Changes.antt =====
-- Which alerts the second of two ticks sends (backend/internal/api/node_alert.go).
use mathlib.Core.List.{Memᴰ}
use mathlib.Core.Path.{subst}
use encode_system.Prelude.{
  ℕ, ◌≡◌, ◌↔◌, ◌⊎◌, inl, inr, refl, sym, List, [], ◌∷◌, Bool, true, false, Option, none, some,
  Bool-cases,
}
use encode_system.Table.{select_one}
use encode_system.Table.Counts.{Memᴰ-uncons}
use encode_system.Model.{Node}
use encode_system.Alerts.{
  NodeState, Transition, Tick, with_node_id, same_state, add_change, diff_node_states, baseline,
  states_of, node_alert_tick,
}

-- the alert about a node of the new snapshot
abbrev pub alert_of : NodeState → Transition
alert_of ns = record {
  node_id = ns.id;
  name = ns.name;
  to_online = ns.online;
  last_seen = ns.last_seen;
}

add_change-from :
    (was : Bool) (found : Option NodeState) (rest : List Transition) (t : Transition)
    → Memᴰ t (add_change was found rest)
    → ((ns : NodeState) × (found ≡ some ns)
        × (t ≡ alert_of ns)
        × (same_state ns.online was ≡ false))
      ⊎ Memᴰ t rest
add_change-from was none rest t m = inr m
add_change-from was (some ns) rest t m = elim (Bool-cases (same_state ns.online was)) [
  | inl e ↦ inr (rw e at m)
  | inr e ↦ elim (Memᴰ-uncons (rw e at m)) [ inl q ↦ inl (ns, refl, q, e) | inr k ↦ inr k ]
]

add_change-rest :
    (was : Bool) (found : Option NodeState) (rest : List Transition) {t : Transition}
    → Memᴰ t rest
    → Memᴰ t (add_change was found rest)
add_change-rest was none rest m = m
add_change-rest was (some ns) rest m = elim (Bool-cases (same_state ns.online was)) [
  | inl e ↦ rw e m
  | inr e ↦ rw e (Memᴰ.tail m)
]

diff-from :
    (old cur : List NodeState) (t : Transition)
    → Memᴰ t (diff_node_states (baseline old) cur)
    → (before : NodeState) × (now : NodeState) × Memᴰ before old
      × (select_one (with_node_id before.id) cur ≡ some now)
      × (same_state now.online before.online ≡ false)
      × (t ≡ alert_of now)
unfolding diff_node_states
diff-from [] cur t m = elim m [ ]
diff-from (x ∷ old) cur t m =
    elim (add_change-from x.online (select_one (with_node_id x.id) cur)
      (diff_node_states (baseline old) cur) t m) [
        | inl (ns, found, e, differ) ↦ (x, ns, Memᴰ.head refl, found, differ, e)
        | inr k ↦
            let (before, now, mb, found, differ, e) = diff-from old cur t k in
            (before, now, Memᴰ.tail mb, found, differ, e)
      ]

diff-to :
    (old cur : List NodeState) (before now : NodeState)
    → Memᴰ before old
    → select_one (with_node_id before.id) cur ≡ some now
    → same_state now.online before.online ≡ false
    → Memᴰ (alert_of now) (diff_node_states (baseline old) cur)
unfolding diff_node_states
diff-to [] cur before now m found differ = elim m [ ]
diff-to (x ∷ old) cur before now m found differ = elim (Memᴰ-uncons m) [
  | inl e ↦
      let found' = subst (λ z. select_one (with_node_id z.id) cur ≡ some now) e found in
      let differ' = subst (λ z. same_state now.online z.online ≡ false) e differ in
      rw found' (rw differ' (Memᴰ.head refl))
  | inr k ↦
      add_change-rest x.online (select_one (with_node_id x.id) cur)
        (diff_node_states (baseline old) cur) (diff-to old cur before now k found differ)
]

-- the node was in the first snapshot, is in the second, and is no longer what it was
abbrev pub Changed : List NodeState → List NodeState → Transition → Type 0
Changed old cur t =
    (before : NodeState) × (now : NodeState) × Memᴰ before old
    × (select_one (with_node_id before.id) cur ≡ some now)
    × (same_state now.online before.online ≡ false)
    × (t ≡ alert_of now)

-- Of two ticks that both list the nodes, the second with the alerts enabled and the first in whatever
-- baseline and with or without them: the second alerts about just those nodes that the first has seen
-- and whose state has changed between the two, with their new state.
pub tick-Changed :
    (stale : ℕ) (prev : List (ℕ × Bool)) (first second : Tick) (old cur : List Node)
    (t : Transition)
    → first.nodes ≡ some old
    → second.nodes ≡ some cur
    → second.enabled ≡ true
    → Memᴰ t (node_alert_tick stale second (node_alert_tick stale first prev).0).1
      ↔ Changed (states_of stale first.now old) (states_of stale second.now cur) t
unfolding node_alert_tick
tick-Changed stale prev first second old cur t hf hs he =
    let before = states_of stale first.now old in
    let after = states_of stale second.now cur in
    (
      λ m. diff-from before after t (rw he at rw hs at rw hf at m),
      λ (x, y, mx, found, differ, e). rw hs (
          rw hf (
            rw he (
              subst (λ z. Memᴰ z (diff_node_states (baseline before) after)) (sym e)
                (diff-to before after x y mx found differ)))),
    )
