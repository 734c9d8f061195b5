-- ===== src/Heartbeat/Fill/Held.antt =====
-- The jobs that the slot-filling loop hands out are the node's own, assigned, when it ends.
use mathlib.Core.List.{Memᴰ}
use encode_system.Prelude.{
  ℕ, ◌≡◌, inl, inr, refl, sym, ap, ◌∙◌, String, List, [], ◌∷◌, Bool, true, false, Option, none,
  some, arith, Bool-cases, ◌==◌, ==_iff, All, All-append, if◌then◌else◌,
}
use encode_system.Prelude.Results.{Result, ok, err}
use encode_system.Table.{update_where}
use encode_system.Table.Counts.{Memᴰ-update, Memᴰ-update_row, Memᴰ-update_to}
use encode_system.Model.{Job, Node, assigned}
use encode_system.Jobs.Ids.{UniqueIds}
use encode_system.Jobs.{
  Store, AssignError, pending_with_id, mark_assigned, assign_job, finish_row, finish_job,
  is_pending,
}
use encode_system.Jobs.Capacity.{assign_job-ok}
use encode_system.Jobs.Queue.{assignable, assignable_for, next_assignable_job_for_node}
use encode_system.Jobs.Queue.Order.{next_assignable_least}
use encode_system.Server.{Env}
use encode_system.Heartbeat.Fill.{
  Payload, Filled, fail_render, turn_assigned, turn_rendered, turn_with, turn, fill,
}
use encode_system.Heartbeat.Fill.Slots.{OfTurn, fill_induction}

updated : (Job → Bool) → (Job → Job) → Job → Job
updated p f j = if p j then f j else j

updated-id :
    (p : Job → Bool) (f : Job → Job) (j : Job)
    → ((k : Job) → (f k).id ≡ k.id)
    → (updated p f j).id ≡ j.id
unfolding updated
updated-id p f j same = elim (Bool-cases (p j)) [ inl e ↦ rw e (same j) | inr e ↦ rw e refl ]

pub UniqueIds-update :
    (p : Job → Bool) (f : Job → Job) (js : List Job)
    → ((j : Job) → (f j).id ≡ j.id)
    → UniqueIds js
    → UniqueIds (update_where p f js)
unfolding updated
UniqueIds-update p f js same u j k hj hk e =
    let (a, ha, qa) = Memᴰ-update_row p f js hj in
    let (b, hb, qb) = Memᴰ-update_row p f js hk in
    let ea : j.id ≡ a.id = ap (λ (x : Job). x.id) qa ∙ updated-id p f a same in
    let eb : k.id ≡ b.id = ap (λ (x : Job). x.id) qb ∙ updated-id p f b same in
    qa ∙ ap (updated p f) (u a b ha hb (sym ea ∙ e ∙ eb)) ∙ sym qb

-- The payload's job is in the table, assigned to the node.
abbrev pub Held : ℕ → List Job → Payload → Type 0
Held n js p = (j : Job) × Memᴰ j js × (j.id ≡ p.id) × (j.status ≡ assigned) × (j.node_id ≡ n)

pub record Sound (n : ℕ) (f : Filled) : Type 0 where
  pub unique : UniqueIds f.store.jobs
  pub held : All (Held n f.store.jobs) f.payloads

-- An update that misses the assigned rows keeps what is held.
Held-update :
    (n : ℕ) (js : List Job) (p : Job → Bool) (f : Job → Job)
    → ((j : Job) → Memᴰ j js → j.status ≡ assigned → p j ≡ false)
    → (ps : List Payload) → All (Held n js) ps
    → All (Held n (update_where p f js)) ps
Held-update n js p f miss [] h = tt
Held-update n js p f miss (q ∷ qs) ((j, m, i, st, nd), h) =
    ((j, Memᴰ-update p f (miss j m st) m, i, st, nd), Held-update n js p f miss qs h)

-- the row that a turn takes is pending
picked-pending :
    (now n : ℕ) (s : Store) (j : Job) → assignable_for now n s j ≡ true → is_pending j.status ≡ true
unfolding assignable_for assignable
picked-pending now n s j h = ground arith

pending-ne-assigned : (j k : Job) → is_pending j.status ≡ true → k.status ≡ assigned → k ≡ j → ⊥
pending-ne-assigned j k h a e = ground (arith, ap (λ (x : Job). x.status) e)

fail_render-Sound :
    (env : Env) (n : Node) (f : Filled) (j : Job) (e : String)
    → Memᴰ j f.store.jobs
    → is_pending j.status ≡ true
    → Sound n.id f
    → Sound n.id (fail_render env j e f)
unfolding finish_job finish_row
fail_render-Sound env n f j e m pend h = record {
  unique = UniqueIds-update _ _ f.store.jobs (λ k. refl) h.unique;
  held =
      Held-update n.id f.store.jobs _ _
        (λ k mk ak. elim (Bool-cases (k.id == j.id)) [
          | inl q ↦
              absurd (pending-ne-assigned j k pend ak (h.unique k j mk m ((==_iff k.id j.id).0 q)))
          | inr q ↦ q
        ])
        f.payloads h.held;
}

assigned-misses : (i : ℕ) (k : Job) → k.status ≡ assigned → pending_with_id i k ≡ false
unfolding pending_with_id
assigned-misses i k h = ground arith

pending_with_own_id : (j : Job) → is_pending j.status ≡ true → pending_with_id j.id j ≡ true
unfolding pending_with_id
pending_with_own_id j h = ground arith

turn_assigned-Sound :
    (env : Env) (n : Node) (f : Filled) (j : Job) (script : String) (t : Store)
    → assign_job env.now j.id n.id f.store ≡ ok t
    → Memᴰ j f.store.jobs
    → is_pending j.status ≡ true
    → Sound n.id f
    → OfTurn (Sound n.id) (turn_assigned j script f (ok t))
unfolding mark_assigned
turn_assigned-Sound env n f j script t e m pend h =
    let a = assign_job-ok env.now j.id n.id f.store e in
    let p = pending_with_id j.id in
    let g = mark_assigned env.now n.id in
    record {
      unique = rw a.rows (UniqueIds-update p g f.store.jobs (λ k. refl) h.unique);
      held = rw a.rows (
          All-append (Held n.id (update_where p g f.store.jobs)) f.payloads _
            (Held-update n.id f.store.jobs p g (λ k mk ak. assigned-misses j.id k ak) f.payloads
              h.held)
            (
              (g j, rw (pending_with_own_id j pend) at (Memᴰ-update_to p g m), refl, refl, refl),
              tt,
            ));
    }

turn_rendered-Sound :
    (env : Env) (n : Node) (f : Filled) (j : Job) (r : Result String String)
    → Memᴰ j f.store.jobs
    → is_pending j.status ≡ true
    → Sound n.id f
    → OfTurn (Sound n.id) (turn_rendered env n j f r)
turn_rendered-Sound env n f j (err e) m pend h = fail_render-Sound env n f j e m pend h
turn_rendered-Sound env n f j (ok script) m pend h =
    settle (assign_job env.now j.id n.id f.store) refl
  where
    settle :
        (q : Result AssignError Store)
        → assign_job env.now j.id n.id f.store ≡ q
        → OfTurn (Sound n.id) (turn_assigned j script f q)
    settle (ok t) e = turn_assigned-Sound env n f j script t e m pend h
    settle (err x) e = h

turn-Sound : (env : Env) (n : Node) (f : Filled) → Sound n.id f → OfTurn (Sound n.id) (turn env n f)
unfolding turn
turn-Sound env n f h = settle (next_assignable_job_for_node env.now n.id f.store) refl
  where
    settle :
        (o : Option Job)
        → next_assignable_job_for_node env.now n.id f.store ≡ o
        → OfTurn (Sound n.id) (turn_with env n f o)
    settle none e = h
    settle (some j) e =
        let (m, fit, first) = next_assignable_least env.now n.id f.store e in
        turn_rendered-Sound env n f j (env.render f.store j n.platform) m
          (picked-pending env.now n.id f.store j fit) h

-- With unique job ids and nothing handed out yet, every job that the loop hands out is assigned to
-- the node in the tables that it leaves: none is failed again by a later turn.
pub fill-held :
    (k : ℕ) (env : Env) (n : Node) (f : Filled)
    → UniqueIds f.store.jobs
    → f.payloads ≡ []
    → All (Held n.id (fill k env n f).store.jobs) (fill k env n f).payloads
fill-held k env n f u e =
    (fill_induction (Sound n.id) env n (turn-Sound env n) k f
      (record { unique = u; held = rw e tt })).held
