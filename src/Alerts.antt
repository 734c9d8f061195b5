-- ===== src/Alerts.antt =====
-- The alerts about nodes that go offline and come back (backend/internal/api/node_alert.go). A map from
-- node ids is the list of its entries; the ids of the nodes table are unique.
pub mod Changes
mod Examples
use encode_system.Prelude.{
  ℕ, ◌+◌, String, List, [], ◌∷◌, map, Bool, true, false, not, ◌&&◌, ◌||◌, Option, none, some, ◌==◌,
  ltb, if◌then◌else◌,
}
use encode_system.Table.{select_one}
use encode_system.Model.{Node}

-- nodeState, with the node's id
pub record NodeState : Type 0 where
  pub id : ℕ
  pub online : Bool
  pub name : String
  pub last_seen : Option ℕ

pub record Transition : Type 0 where
  pub node_id : ℕ
  pub name : String
  -- "online" or "offline"
  pub to_online : Bool
  pub last_seen : Option ℕ

-- `n.LastSeen != nil && now.Sub(*n.LastSeen) < s.Cfg.StaleAfter`, in seconds
unfoldable pub seen_within : ℕ → ℕ → Option ℕ → Bool
seen_within stale now none = false
seen_within stale now (some t) = ltb now (t + stale)

unfoldable pub state_of : ℕ → ℕ → Node → NodeState
unfolding seen_within
state_of stale now n = record {
  id = n.id;
  online = seen_within stale now n.last_seen;
  name = n.name;
  last_seen = n.last_seen;
}

abbrev pub with_node_id : ℕ → NodeState → Bool
with_node_id id ns = ns.id == id

abbrev pub same_state : Bool → Bool → Bool
same_state a b = if a then b else not b

-- what one entry of the baseline adds to the transitions
abbrev pub add_change : Bool → Option NodeState → List Transition → List Transition
add_change was none rest = rest
add_change was (some ns) rest =
    if same_state ns.online was
    then rest
    else record { node_id = ns.id; name = ns.name; to_online = ns.online; last_seen = ns.last_seen }
      ∷ rest

unfoldable pub diff_node_states : List (ℕ × Bool) → List NodeState → List Transition
diff_node_states [] cur = []
diff_node_states ((id, was) ∷ prev) cur =
    add_change was (select_one (with_node_id id) cur) (diff_node_states prev cur)

-- newPrev
abbrev pub baseline : List NodeState → List (ℕ × Bool)
baseline [] = []
baseline (ns ∷ cur) = (ns.id, ns.online) ∷ baseline cur

abbrev pub states_of : ℕ → ℕ → List Node → List NodeState
states_of stale now [] = []
states_of stale now (n ∷ nodes) = state_of stale now n ∷ states_of stale now nodes

-- what a tick reads
pub record Tick : Type 0 where
  pub now : ℕ
  -- NotifyNodeStatus, and a webhook is set
  pub enabled : Bool
  -- `none` is an error of ListNodes
  pub nodes : Option (List Node)

-- nodeAlertTickWithState: the new baseline and the alerts that are sent
unfoldable pub node_alert_tick : ℕ → Tick → List (ℕ × Bool) → List (ℕ × Bool) × List Transition
unfolding state_of diff_node_states
node_alert_tick stale tick prev = elim tick.nodes [
  | none ↦ (prev, [])
  | some nodes ↦
      let cur = states_of stale tick.now nodes in
      (baseline cur, if tick.enabled then diff_node_states prev cur else [])
]

-- runNodeAlertLoop over its ticks: the alerts of each
unfoldable pub run_node_alert_loop : ℕ → List Tick → List (ℕ × Bool) → List (List Transition)
unfolding node_alert_tick
run_node_alert_loop stale [] prev = []
run_node_alert_loop stale (tick ∷ ticks) prev =
    let (next, sent) = node_alert_tick stale tick prev in
    sent ∷ run_node_alert_loop stale ticks next
