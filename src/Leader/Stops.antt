-- ===== src/Leader/Stops.antt =====
-- The supervisor stops (backend/internal/store/leader.go): a replica whose context is cancelled returns
-- after a bounded number of its steps.
use encode_system.Prelude.{
  ℕ, suc, ◌+◌, ◌*◌, ◌≤◌, ◌<◌, ◌≡◌, ◌⊎◌, inl, inr, refl, ap, Bool, true, arith, if◌then◌else◌,
}
use encode_system.Leader.{
  Phase, Replica, LocalStep, check, trying, sleeping, running, draining_lost, draining_stop, exited,
}

abbrev phase_rank : Phase → ℕ
phase_rank exited = 0
phase_rank check = 1
phase_rank sleeping = 2
phase_rank draining_lost = 3
phase_rank draining_stop = 3
phase_rank running = 4
phase_rank trying = 6

-- what is left of a cancelled replica's run
unfoldable pub remaining : Replica → ℕ
remaining r = 2 * phase_rank r.phase + (if r.session then 1 else 0)

-- n steps of one replica, each with some state of the lock
pub data LocalSteps (r : Replica) : ℕ → Replica → Type 0 where
  here : LocalSteps r 0 r
  then :
      {n : ℕ} {s t : Replica} (free : Bool)
      → LocalSteps r n s
      → LocalStep free s t
      → LocalSteps r (suc n) t

-- a cancelled replica stays cancelled, and has less left after each step
step-remaining :
    {free : Bool} {r s : Replica}
    → LocalStep free r s
    → r.cancelled ≡ true
    → (s.cancelled ≡ true) × (remaining s < remaining r)
unfolding remaining
step-remaining (LocalStep.look e) c = (c, rw e (rw c (ground arith)))
step-remaining (LocalStep.acquire_error e) c = (c, ground (arith, ap phase_rank e))
step-remaining (LocalStep.standby e f) c = (c, ground (arith, ap phase_rank e))
step-remaining (LocalStep.acquire e f) c = (c, ground (arith, ap phase_rank e))
step-remaining (LocalStep.wake e) c = (c, ground (arith, ap phase_rank e))
step-remaining (LocalStep.sleep_cancelled e f) c = (c, ground (arith, ap phase_rank e))
step-remaining (LocalStep.body_done e) c = (c, rw e (rw c (ground arith)))
step-remaining (LocalStep.lost e f) c = (c, ground (arith, ap phase_rank e))
step-remaining (LocalStep.drained_lost e) c = (c, rw e (rw c (ground arith)))
step-remaining (LocalStep.stop e f) c = (c, ground (arith, ap phase_rank e))
step-remaining (LocalStep.drained_stop e) c = (c, ground (arith, ap phase_rank e))
step-remaining (LocalStep.session_dies e) c = (c, rw e (ground arith))

steps-remaining :
    {r s : Replica} {n : ℕ}
    → LocalSteps r n s
    → r.cancelled ≡ true
    → (s.cancelled ≡ true) × (n + remaining s ≤ remaining r)
steps-remaining LocalSteps.here c = (c, omega arith)
steps-remaining (LocalSteps.then free steps step) c =
    let (d, h) = steps-remaining steps c in
    let (e, k) = step-remaining step d in (e, omega (arith, h, k))

rank-bounded : (p : Phase) → phase_rank p ≤ 6
rank-bounded check = omega arith
rank-bounded trying = omega arith
rank-bounded sleeping = omega arith
rank-bounded running = omega arith
rank-bounded draining_lost = omega arith
rank-bounded draining_stop = omega arith
rank-bounded exited = omega arith

remaining-bounded : (r : Replica) → remaining r ≤ 13
unfolding remaining
remaining-bounded r = ground (arith, rank-bounded r.phase)

-- a replica that has not returned can take a step, whatever the state of the lock
can_step : (free : Bool) (r : Replica) → (r.phase ≡ exited) ⊎ ((s : Replica) × LocalStep free r s)
can_step free r = go r.phase refl
  where
    go : (p : Phase) → r.phase ≡ p → (r.phase ≡ exited) ⊎ ((s : Replica) × LocalStep free r s)
    go check e = inr (_, LocalStep.look e)
    go trying e = inr (_, LocalStep.acquire_error e)
    go sleeping e = inr (_, LocalStep.wake e)
    go running e = inr (_, LocalStep.body_done e)
    go draining_lost e = inr (_, LocalStep.drained_lost e)
    go draining_stop e = inr (_, LocalStep.drained_stop e)
    go exited e = inl e

-- A replica whose context is cancelled takes at most 13 further steps, whatever it was doing and
-- whatever the other replicas do with the lock, and at each moment it has returned or can take one,
-- given that the body of the loop returns.
pub steps-Stopping :
    {r s : Replica} {n : ℕ} (free : Bool)
    → LocalSteps r n s
    → r.cancelled ≡ true
    → (n ≤ 13) × ((s.phase ≡ exited) ⊎ ((t : Replica) × LocalStep free s t))
steps-Stopping {r = r} {s = s} free steps c =
    let (d, h) = steps-remaining steps c in (omega (arith, h, remaining-bounded r), can_step free s)
