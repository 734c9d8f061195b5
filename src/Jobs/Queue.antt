-- ===== src/Jobs/Queue.antt =====
-- NextAssignableJob and NextAssignableJobForNode of backend/internal/store/store.go: the WHERE
-- clause as a test on a row, and `ORDER BY … LIMIT 1` as the first row in that order.
pub mod Order
use text.Mathlib.Text.{◌==◌ as ◌=s=◌}
use encode_system.Prelude.{
  ℕ, List, [], ◌∷◌, Bool, true, false, not, ◌&&◌, Option, none, some, ◌==◌, ltb, leb, if◌then◌else◌,
}
use encode_system.Prelude.Int.{ltbℤ}
use encode_system.Table.{select_where, count_where, first_by}
use encode_system.Model.{Job, Node, Series}
use encode_system.Jobs.{Store, is_pending}

-- next_retry_at IS NULL OR next_retry_at <= datetime('now')
abbrev pub gate_open : ℕ → Option ℕ → Bool
gate_open now none = true
gate_open now (some t) = leb t now

-- NOT EXISTS (… sr.name = jobs.series AND sr.paused = 1)
unfoldable pub not_paused : Store → Job → Bool
not_paused s j = count_where (λ sr. sr.name =s= j.series && sr.paused) s.series == 0

-- the labels clash: both are set and they differ
unfoldable pub groups_clash : Series → Node → Bool
groups_clash sr n =
    not (sr.node_group =s= "") && not (n.group =s= "") && not (sr.node_group =s= n.group)

-- NOT EXISTS (… JOIN nodes nd ON nd.id = ? WHERE sg.name = jobs.series AND the labels clash)
unfoldable pub routed : ℕ → Store → Job → Bool
unfolding groups_clash
routed node_id s j =
    count_where
      (λ sr.
        sr.name =s= j.series
        && ltb 0 (count_where (λ n. n.id == node_id && groups_clash sr n) s.nodes))
      s.series
    == 0

unfoldable pub assignable : ℕ → Store → Job → Bool
unfolding not_paused
assignable now s j = is_pending j.status && gate_open now j.next_retry_at && not_paused s j

unfoldable pub assignable_for : ℕ → ℕ → Store → Job → Bool
unfolding assignable routed
assignable_for now node_id s j = assignable now s j && routed node_id s j

-- ORDER BY priority DESC, (last_failed_node_id = ?) ASC, id ASC: `before n a b` when a goes first
unfoldable pub before : ℕ → Job → Job → Bool
before node_id a b =
    if ltbℤ b.priority a.priority
    then true
    else if ltbℤ a.priority b.priority
    then false
    else if a.last_failed_node_id == node_id
    then (if b.last_failed_node_id == node_id then ltb a.id b.id else false)
    else (if b.last_failed_node_id == node_id then true else ltb a.id b.id)

-- ORDER BY priority DESC, id ASC
unfoldable pub before_any : Job → Job → Bool
before_any a b =
    if ltbℤ b.priority a.priority
    then true
    else if ltbℤ a.priority b.priority
    then false
    else ltb a.id b.id

unfoldable pub next_assignable_job : ℕ → Store → Option Job
unfolding first_by
next_assignable_job now s = first_by before_any (select_where (assignable now s) s.jobs)

unfoldable pub next_assignable_job_for_node : ℕ → ℕ → Store → Option Job
unfolding first_by
next_assignable_job_for_node now node_id s =
    first_by (before node_id) (select_where (assignable_for now node_id s) s.jobs)
