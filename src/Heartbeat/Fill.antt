-- ===== src/Heartbeat/Fill.antt =====
-- The loop of handleHeartbeat (backend/internal/api/handlers.go) that fills the free slots. Each turn
-- takes the next assignable job, renders it and assigns it.
pub mod Slots
pub mod Held
use encode_system.Prelude.{ℕ, zero, suc, String, List, [], ◌∷◌, ◌++◌, Option, none, some}
use encode_system.Prelude.Int.{negsuc}
use encode_system.Prelude.Results.{Result, ok, err}
use Prim.Native.String.{◌++◌ as ◌+s+◌}
use encode_system.Model.{Job, Node, failed}
use encode_system.Jobs.{Store, AssignError, assign_job, finish_job}
use encode_system.Jobs.Queue.{next_assignable_job_for_node}
use encode_system.Server.{Env, Effect, notify_job_finished}

-- JobPayload: the id and the rendered script
pub record Payload : Type 0 where
  pub id : ℕ
  pub script : String

pub record Filled : Type 0 where
  pub store : Store
  pub effects : List Effect
  pub payloads : List Payload

pub data Turn : Type 0 where
  stop : Filled → Turn
  again : Filled → Turn

-- a job that does not render is failed, and its turn is spent
abbrev pub fail_render : Env → Job → String → Filled → Filled
fail_render env j e f =
    let t = finish_job env.now j.id failed (negsuc 0) ("render failed: " +s+ e) [] [] f.store in
    record f { store = t; effects = f.effects ++ notify_job_finished env t j.id "controller" }

-- a lost race, or a node that filled up, ends the loop
abbrev pub turn_assigned : Job → String → Filled → Result AssignError Store → Turn
turn_assigned j script f (err e) = stop f
turn_assigned j script f (ok t) =
    again
      (record f { store = t; payloads = f.payloads ++ record { id = j.id; script = script } ∷ [] })

abbrev pub turn_rendered : Env → Node → Job → Filled → Result String String → Turn
turn_rendered env n j f (err e) = again (fail_render env j e f)
turn_rendered env n j f (ok script) =
    turn_assigned j script f (assign_job env.now j.id n.id f.store)

abbrev pub turn_with : Env → Node → Filled → Option Job → Turn
turn_with env n f none = stop f
turn_with env n f (some j) = turn_rendered env n j f (env.render f.store j n.platform)

unfoldable pub turn : Env → Node → Filled → Turn
turn env n f = turn_with env n f (next_assignable_job_for_node env.now n.id f.store)

-- for i := 0; i < freeSlots; i++
unfoldable pub fill : ℕ → Env → Node → Filled → Filled
fill zero env n f = f
fill (suc k) env n f = elim (turn env n f) [ stop g ↦ g | again g ↦ fill k env n g ]
