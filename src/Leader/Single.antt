-- ===== src/Leader/Single.antt =====
-- One leader at a time (backend/internal/store/leader.go).
use encode_system.Prelude.{
  ◌+◌, ◌≤◌, ◌≡◌, ℕ, refl, ap, Bool-cases, ◌⊎◌, inl, inr, List, [], ◌∷◌, ◌++◌, Bool, true, not, ◌&&◌,
  arith, if◌then◌else◌,
}
use encode_system.Table.{count_where}
use encode_system.Table.Counts.{count-append}
use encode_system.Leader.{Replica, LocalStep, ClusterStep, ClusterSteps, holds, runs, is_free}

-- a replica whose body may run although its session is gone
unfoldable pub orphaned : Replica → Bool
orphaned r = runs r && not (holds r)

-- a replica holds the lock after a step only if it did before, or the lock was free
session-step :
    {free : Bool} {r s : Replica}
    → LocalStep free r s
    → holds s ≡ true
    → (free ≡ true) ⊎ (holds r ≡ true)
unfolding holds
session-step (LocalStep.look e) h = inr h
session-step (LocalStep.acquire_error e) h = inr h
session-step (LocalStep.standby e f) h = inr h
session-step (LocalStep.acquire e f) h = inl f
session-step (LocalStep.wake e) h = inr h
session-step (LocalStep.sleep_cancelled e f) h = inr h
session-step (LocalStep.body_done e) h = absurd (ground (arith, h))
session-step (LocalStep.lost e f) h = inr h
session-step (LocalStep.drained_lost e) h = absurd (ground (arith, h))
session-step (LocalStep.stop e f) h = inr h
session-step (LocalStep.drained_stop e) h = absurd (ground (arith, h))
session-step (LocalStep.session_dies e) h = absurd (ground (arith, h))

count-middle :
    (q : Replica → Bool) (front back : List Replica) (r : Replica)
    → count_where q (front ++ r ∷ back) ≡ count_where q (front ++ back) + (if q r then 1 else 0)
unfolding count_where
count-middle q front back r =
    ground (arith, count-append q front (r ∷ back), count-append q front back)

holders-step :
    {c d : List Replica} → ClusterStep c d → count_where holds c ≤ 1 → count_where holds d ≤ 1
unfolding is_free holds
holders-step (ClusterStep.local front back r s step) h =
    let before = count-middle holds front back r in
    let after = count-middle holds front back s in
    let keeps = session-step step in ground (arith, h, before, after, keeps)
holders-step (ClusterStep.sigterm front back r) h =
    let before = count-middle holds front back r in
    let after = count-middle holds front back (record r { cancelled = true }) in
    ground (arith, h, before, after)

holders-steps :
    {c d : List Replica} → ClusterSteps c d → count_where holds c ≤ 1 → count_where holds d ≤ 1
holders-steps ClusterSteps.here h = h
holders-steps (ClusterSteps.then steps step) h = holders-step step (holders-steps steps h)

runs-split : (c : List Replica) → count_where runs c ≤ count_where holds c + count_where orphaned c
unfolding count_where orphaned
runs-split [] = omega arith
runs-split (r ∷ c) = ground (arith, runs-split c)

-- how many sessions died on the way
abbrev pub deaths_local : {free : Bool} {r s : Replica} → LocalStep free r s → ℕ
deaths_local (LocalStep.session_dies e) = 1
deaths_local _ = 0

abbrev pub deaths_step : {c d : List Replica} → ClusterStep c d → ℕ
deaths_step (ClusterStep.local front back r s step) = deaths_local step
deaths_step (ClusterStep.sigterm front back r) = 0

unfoldable pub deaths : {c d : List Replica} → ClusterSteps c d → ℕ
deaths ClusterSteps.here = 0
deaths (ClusterSteps.then steps step) = deaths steps + deaths_step step

abbrev bit : Bool → ℕ
bit b = if b then 1 else 0

-- only a session that dies orphans the body of its replica
orphaned-local :
    {free : Bool} {r s : Replica} (step : LocalStep free r s)
    → bit (orphaned s) ≤ bit (orphaned r) + deaths_local step
unfolding orphaned runs holds
orphaned-local {r = r} (LocalStep.look e) = elim (Bool-cases r.cancelled) [
  | inl k ↦ rw k (omega arith)
  | inr k ↦ rw k (omega arith)
]
orphaned-local (LocalStep.acquire_error e) = omega arith
orphaned-local (LocalStep.standby e f) = omega arith
orphaned-local (LocalStep.acquire e f) = omega arith
orphaned-local (LocalStep.wake e) = omega arith
orphaned-local (LocalStep.sleep_cancelled e f) = omega arith
orphaned-local {r = r} (LocalStep.body_done e) = elim (Bool-cases r.cancelled) [
  | inl k ↦ rw k (omega arith)
  | inr k ↦ rw k (omega arith)
]
orphaned-local (LocalStep.lost e f) = ground (arith, e, f)
orphaned-local {r = r} (LocalStep.drained_lost e) = elim (Bool-cases r.cancelled) [
  | inl k ↦ rw k (omega arith)
  | inr k ↦ rw k (omega arith)
]
orphaned-local (LocalStep.stop e f) = ground (arith, e)
orphaned-local (LocalStep.drained_stop e) = omega arith
orphaned-local (LocalStep.session_dies e) = ground (arith, e)

orphaned-sigterm : (r : Replica) → orphaned (record r { cancelled = true }) ≡ orphaned r
unfolding orphaned runs holds
orphaned-sigterm r = refl

orphaned-step :
    {c d : List Replica} (step : ClusterStep c d)
    → count_where orphaned d ≤ count_where orphaned c + deaths_step step
orphaned-step (ClusterStep.local front back r s step) =
    let before = count-middle orphaned front back r in
    let after = count-middle orphaned front back s in
    omega (arith, before, after, orphaned-local step)
orphaned-step (ClusterStep.sigterm front back r) =
    let before = count-middle orphaned front back r in
    let after = count-middle orphaned front back (record r { cancelled = true }) in
    omega (arith, before, after, ap bit (orphaned-sigterm r))

orphaned-steps :
    {c d : List Replica} (steps : ClusterSteps c d)
    → count_where orphaned d ≤ count_where orphaned c + deaths steps
unfolding deaths
orphaned-steps ClusterSteps.here = omega arith
orphaned-steps (ClusterSteps.then steps step) =
    omega (arith, orphaned-steps steps, orphaned-step step)

-- Let a cluster start with at most one session that holds the lock, and with the body running in no replica
-- but one whose session holds it. After any steps, no more replicas run the body than one and one for each
-- session that died on the way: without the death of a session, at most one does.
pub runs-bounded :
    {c d : List Replica} (steps : ClusterSteps c d)
    → count_where holds c ≤ 1
    → count_where orphaned c ≡ 0
    → count_where runs d ≤ 1 + deaths steps
runs-bounded {d = d} steps h none =
    omega (arith, holders-steps steps h, orphaned-steps steps, runs-split d)
