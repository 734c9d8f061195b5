-- ===== src/Leader.antt =====
-- The supervisor that runs a background loop on one replica (backend/internal/store/leader.go), as
-- steps of a replica and of a cluster. The body of the loop is what runs in the phases `running` and
-- `draining`; it returns by itself, or once its context is cancelled.
pub mod Single
pub mod Stops
mod Examples
use encode_system.Prelude.{
  ℕ, ◌≡◌, List, [], ◌∷◌, ◌++◌, Bool, true, false, not, ◌&&◌, ◌||◌, ◌==◌, if◌then◌else◌,
}
use encode_system.Table.{count_where}

-- Where RunLoopSupervisor stands: at the top of the loop, in tryAdvisoryLock, in sleepOrCancel, in the
-- select with the body running, waiting for the body after the lock was lost, waiting for it after the
-- context was cancelled, returned.
pub data Phase : Type 0 where
  check trying sleeping running draining_lost draining_stop exited : Phase

-- `session` is what Postgres sees: the lock's connection is alive and holds the lock.
pub record Replica : Type 0 where
  pub phase : Phase
  pub cancelled : Bool
  pub session : Bool

-- `if ctx.Err() != nil { return }`, else on to the given phase
abbrev pub unless_cancelled : Bool → Phase → Phase
unless_cancelled cancelled p = if cancelled then exited else p

-- release: the unlock and the close of the connection
abbrev pub released : Phase → Replica → Replica
released p r = record r { phase = p; session = false }

-- One step of a replica; `free` says that no other session holds the lock, as pg_try_advisory_lock
-- asks. On SQLite there is one replica and no step `session_dies`.
pub data LocalStep (free : Bool) (r : Replica) : Replica → Type 0 where
  look :
      r.phase ≡ check → LocalStep free r (record r { phase = unless_cancelled r.cancelled trying })
  acquire_error : r.phase ≡ trying → LocalStep free r (record r { phase = sleeping })
  standby : r.phase ≡ trying → free ≡ false → LocalStep free r (record r { phase = sleeping })
  acquire :
      r.phase ≡ trying
      → free ≡ true
      → LocalStep free r (record r { phase = running; session = true })
  wake : r.phase ≡ sleeping → LocalStep free r (record r { phase = check })
  sleep_cancelled :
      r.phase ≡ sleeping → r.cancelled ≡ true → LocalStep free r (record r { phase = exited })
  -- `case <-bodyDone`
  body_done : r.phase ≡ running → LocalStep free r (released (unless_cancelled r.cancelled check) r)
  -- `case <-h.lostCh`: the keepalive probe of a dead session failed
  lost :
      r.phase ≡ running → r.session ≡ false → LocalStep free r (record r { phase = draining_lost })
  drained_lost :
      r.phase ≡ draining_lost
      → LocalStep free r (released (unless_cancelled r.cancelled sleeping) r)
  -- `case <-ctx.Done()`
  stop :
      r.phase ≡ running → r.cancelled ≡ true → LocalStep free r (record r { phase = draining_stop })
  drained_stop : r.phase ≡ draining_stop → LocalStep free r (released exited r)
  session_dies : r.session ≡ true → LocalStep free r (record r { session = false })

-- the body may be running
abbrev pub runs_phase : Phase → Bool
runs_phase running = true
runs_phase draining_lost = true
runs_phase draining_stop = true
runs_phase _ = false

unfoldable pub runs : Replica → Bool
runs r = runs_phase r.phase

unfoldable pub holds : Replica → Bool
holds r = r.session

-- pg_try_advisory_lock of one replica, given the others
unfoldable pub is_free : List Replica → Bool
is_free others = count_where holds others == 0

-- A step of the cluster: of one replica, or the SIGTERM of one.
pub data ClusterStep : List Replica → List Replica → Type 0 where
  local :
      (front back : List Replica) (r s : Replica)
      → LocalStep (is_free (front ++ back)) r s
      → ClusterStep (front ++ r ∷ back) (front ++ s ∷ back)
  sigterm :
      (front back : List Replica) (r : Replica)
      → ClusterStep (front ++ r ∷ back) (front ++ record r { cancelled = true } ∷ back)

pub data ClusterSteps (c : List Replica) : List Replica → Type 0 where
  here : ClusterSteps c c
  then : {d e : List Replica} → ClusterSteps c d → ClusterStep d e → ClusterSteps c e

-- a replica at its start
abbrev pub fresh : Replica
fresh = record { phase = check; cancelled = false; session = false }
