-- ===== src/Heartbeat/Fill/Slots.antt =====
-- What the slot-filling loop does: it runs ordinary operations of the store, it hands out at most one
-- job per free slot, and every job that it hands out is assigned to the node when it ends.
use encode_system.Prelude.{
  ℕ, zero, suc, ◌+◌, ◌≤◌, refl, String, [], ◌∷◌, Option, none, some, arith, length, length-append,
}
use encode_system.Prelude.Int.{negsuc}
use encode_system.Prelude.Results.{Result, ok, err}
use encode_system.Model.{Job, Node, failed}
use encode_system.Jobs.{Store, AssignError, assign_job}
use encode_system.Jobs.Queue.{next_assignable_job_for_node}
use encode_system.Jobs.Trace.{assign, finish, apply, or_same}
use encode_system.Jobs.Trace.Reach.{Reached, Reached-then}
use encode_system.Server.{Env}
use encode_system.Heartbeat.Fill.{
  Filled, Turn, stop, again, turn_assigned, turn_rendered, turn_with, turn, fill,
}

-- A property of the loop's state that every turn keeps holds at its end.
module _ {ℓ} (P : Filled → Type ℓ) where
  abbrev pub OfTurn : Turn → Type ℓ
  OfTurn (stop g) = P g
  OfTurn (again g) = P g

  fill_settle :
      (env : Env) (n : Node) (k : ℕ) (t : Turn)
      → OfTurn t
      → ((g : Filled) → P g → P (fill k env n g))
      → P (elim t [ stop g ↦ g | again g ↦ fill k env n g ])
  fill_settle env n k (stop g) h rest = h
  fill_settle env n k (again g) h rest = rest g h

  pub fill_induction :
      (env : Env) (n : Node)
      → ((f : Filled) → P f → OfTurn (turn env n f))
      → (k : ℕ) (f : Filled) → P f
      → P (fill k env n f)
  unfolding fill
  fill_induction env n keep zero f h = h
  fill_induction env n keep (suc k) f h =
      fill_settle env n k (turn env n f) (keep f h) (fill_induction env n keep k)

-- Every turn, and so the loop, runs ordinary operations of the store.
module _ (s : Store) where
  abbrev From : Filled → Type 0
  From f = Reached s f.store

  turn_rendered-From :
      (env : Env) (n : Node) (j : Job) (f : Filled) (r : Result String String)
      → From f
      → OfTurn From (turn_rendered env n j f r)
  unfolding apply
  turn_rendered-From env n j f (err e) h =
      Reached-then env.now (finish j.id failed (negsuc 0) _ [] []) h refl
  turn_rendered-From env n j f (ok script) h =
      settle (assign_job env.now j.id n.id f.store) (Reached-then env.now (assign j.id n.id) h tt)
    where
      settle :
          (q : Result AssignError Store)
          → Reached s (or_same f.store q)
          → OfTurn From (turn_assigned j script f q)
      settle (ok t) g = g
      settle (err e) g = h

  turn_with-From :
      (env : Env) (n : Node) (f : Filled) (o : Option Job)
      → From f
      → OfTurn From (turn_with env n f o)
  turn_with-From env n f none h = h
  turn_with-From env n f (some j) h =
      turn_rendered-From env n j f (env.render f.store j n.platform) h

  pub fill-Reached :
      (k : ℕ) (env : Env) (n : Node) (f : Filled)
      → Reached s f.store
      → Reached s (fill k env n f).store
  unfolding turn
  fill-Reached k env n f h =
      fill_induction From env n
        (λ g hg. turn_with-From env n g (next_assignable_job_for_node env.now n.id g.store) hg) k f
        h

-- Each turn adds one payload at most.
turn_rendered-length :
    (env : Env) (n : Node) (j : Job) (f : Filled) (r : Result String String)
    → OfTurn (λ g. length g.payloads ≤ length f.payloads + 1) (turn_rendered env n j f r)
turn_rendered-length env n j f (err e) = omega arith
turn_rendered-length env n j f (ok script) = settle (assign_job env.now j.id n.id f.store)
  where
    settle :
        (q : Result AssignError Store)
        → OfTurn (λ g. length g.payloads ≤ length f.payloads + 1) (turn_assigned j script f q)
    settle (ok t) =
        omega (arith, length-append f.payloads (record { id = j.id; script = script } ∷ []))
    settle (err e) = omega arith

turn_with-length :
    (env : Env) (n : Node) (f : Filled) (o : Option Job)
    → OfTurn (λ g. length g.payloads ≤ length f.payloads + 1) (turn_with env n f o)
turn_with-length env n f none = omega arith
turn_with-length env n f (some j) = turn_rendered-length env n j f (env.render f.store j n.platform)

-- The loop hands out at most one job for each free slot.
pub fill-length :
    (k : ℕ) (env : Env) (n : Node) (f : Filled)
    → length (fill k env n f).payloads ≤ length f.payloads + k
unfolding fill turn
fill-length zero env n f = omega arith
fill-length (suc k) env n f =
    settle (turn_with env n f (next_assignable_job_for_node env.now n.id f.store))
      (turn_with-length env n f (next_assignable_job_for_node env.now n.id f.store))
      (fill-length k env n)
  where
    settle :
        (t : Turn)
        → OfTurn (λ g. length g.payloads ≤ length f.payloads + 1) t
        → ((g : Filled) → length (fill k env n g).payloads ≤ length g.payloads + k)
        → length (elim t as (λ t. Filled) [ stop g ↦ g | again g ↦ fill k env n g ]).payloads
          ≤ length f.payloads + suc k
    settle (stop g) h rest = omega arith
    settle (again g) h rest = omega (arith, rest g)
