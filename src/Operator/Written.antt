-- ===== src/Operator/Written.antt =====
-- The row that a retry or a patch answers with is the one it wrote.
use mathlib.Core.List.{Memᴰ}
use encode_system.Prelude.{
  ℕ, ◌≡◌, inl, inr, refl, sym, ap, ◌∙◌, Bool, true, false, not, ◌&&◌, Option, none, some, ◌==◌, ltb,
  arith, Bool-cases,
}
use encode_system.Prelude.Int.{ℤ}
use encode_system.Prelude.Results.{ok}
use encode_system.Table.{count_where, update_where}
use encode_system.Table.Rows.{changed, select_one-update, count_where-some}
use encode_system.Model.{Job}
use encode_system.Jobs.{Store, get_job, pending_with_id, is_pending}
use encode_system.Jobs.Lifecycle.{retry_job, retryable, requeue_row, patch_row, patch_pending_job}
use encode_system.Jobs.Ids.{UniqueIds}
use encode_system.Jobs.Ids.{get_job_unique}
use encode_system.Operator.{
  success, reread, retry_counted, handle_retry_job, patch_counted, flow_missing, patch_found,
  handle_patch_job,
}

-- The row of an id that an update writes, by the row that it was before.
record Wrote (i : ℕ) (q : Job → Bool) (f : Job → Job) (s : Store) : Type 0 where
  before : Job
  inside : Memᴰ before s.jobs
  hit : q before ≡ true
  after : get_job i (record s { jobs = update_where q f s.jobs }) ≡ some (f before)

update-Wrote :
    (i : ℕ) (q : Job → Bool) (f : Job → Job) (s : Store)
    → UniqueIds s.jobs
    → ((j : Job) → q j ≡ true → (j.id == i) ≡ true)
    → ((j : Job) → ((f j).id == i) ≡ (j.id == i))
    → (count_where q s.jobs == 0) ≡ false
    → Wrote i q f s
unfolding get_job
update-Wrote i q f s u own same h =
    let (r, m, hit) = count_where-some q s.jobs h in
    record {
      before = r;
      inside = m;
      hit = hit;
      after =
          select_one-update (λ j. j.id == i) q f same s.jobs
          ∙ ap (changed q f) (get_job_unique i s r u m (own r hit))
          ∙ rw hit refl;
    }

-- what `reread` answers, when the row is known
reread-success :
    (s : Store) (o : Option Job) {j k : Job}
    → o ≡ some j
    → (reread s o).1 ≡ success (some k)
    → k ≡ j
reread-success s o {j} {k} e h = ground (arith, rw e at h)

-- The retried row, in the terms of the row that it was: it waits again, with its counter and its gate
-- reset.
pub record Retried (i : ℕ) (k : Job) (s t : Store) : Type 0 where
  pub before : Job
  pub inside : Memᴰ before s.jobs
  pub fit : retryable before ≡ true
  pub result : k ≡ requeue_row 0 none before
  pub row : get_job i t ≡ some k

reread_store : (s : Store) (o : Option Job) → (reread s o).0 ≡ s
reread_store s none = refl
reread_store s (some j) = refl

own_retryable : (i : ℕ) (j : Job) → (j.id == i && retryable j) ≡ true → (j.id == i) ≡ true
own_retryable i j h = ground (arith, h)

hit_retryable : (i : ℕ) (j : Job) → (j.id == i && retryable j) ≡ true → retryable j ≡ true
hit_retryable i j h = ground (arith, h)

retry_counted-success :
    (i : ℕ) (s : Store) {k : Job}
    → UniqueIds s.jobs
    → (retry_counted i (retry_job i s)).1 ≡ success (some k)
    → Retried i k s (retry_counted i (retry_job i s)).0
unfolding retry_job requeue_row
retry_counted-success i s {k} u h =
    let q : Job → Bool = λ j. j.id == i && retryable j in
    let f = requeue_row 0 none in
    let t : Store = record s { jobs = update_where q f s.jobs } in
    elim (Bool-cases (count_where q s.jobs == 0)) [
      | inl e ↦ absurd (ground (arith, rw e at h))
      | inr e ↦
          let w = update-Wrote i q f s u (own_retryable i) (λ j. refl) e in
          let same = reread-success t (get_job i t) w.after (rw e at h) in
          rw e (
            rw (reread_store t (get_job i t)) (record {
              before = w.before;
              inside = w.inside;
              fit = hit_retryable i w.before w.hit;
              result = same;
              row = w.after ∙ ap some (sym same);
            }))
    ]

-- With unique job ids, a retry that answers with a row has put that job back in the queue: the row
-- was a finished job, or a pending one behind a backoff gate, and is now the same job with its run,
-- its counter and its gate cleared.
pub handle_retry_job-success :
    (i : ℕ) (s : Store) {k : Job}
    → UniqueIds s.jobs
    → (handle_retry_job i s).1 ≡ success (some k)
    → Retried i k s (handle_retry_job i s).0
unfolding handle_retry_job
handle_retry_job-success i s u h = retry_counted-success i s u h

-- The patched row, in the terms of the row that it was: pending, with the flow and the priority that
-- the request names.
pub record Patched (i : ℕ) (flow_id : Option ℕ) (priority : Option ℤ) (k : Job) (s t : Store)
    : Type 0 where
  pub before : Job
  pub inside : Memᴰ before s.jobs
  pub fit : is_pending before.status ≡ true
  pub result : k ≡ patch_row flow_id priority before
  pub row : get_job i t ≡ some k

own_pending : (i : ℕ) (j : Job) → pending_with_id i j ≡ true → (j.id == i) ≡ true
unfolding pending_with_id
own_pending i j h = ground (arith, h)

hit_pending : (i : ℕ) (j : Job) → pending_with_id i j ≡ true → is_pending j.status ≡ true
unfolding pending_with_id
hit_pending i j h = ground (arith, h)

-- the reply to a patch that wrote something
patch_counted-success :
    (i : ℕ) (flow_id : Option ℕ) (priority : Option ℤ) (s : Store) {k : Job}
    → UniqueIds s.jobs
    → (patch_counted i s (
        ok (
          record s { jobs = update_where (pending_with_id i) (patch_row flow_id priority) s.jobs },
          ltb 0 (count_where (pending_with_id i) s.jobs),
        ))).1
      ≡ success (some k)
    → Patched i flow_id priority k s
        (patch_counted i s (
          ok (
            record s {
              jobs = update_where (pending_with_id i) (patch_row flow_id priority) s.jobs;
            },
            ltb 0 (count_where (pending_with_id i) s.jobs),
          ))).0
unfolding patch_row
patch_counted-success i flow_id priority s {k} u h =
    let q = pending_with_id i in
    let f = patch_row flow_id priority in
    let t : Store = record s { jobs = update_where q f s.jobs } in
    elim (Bool-cases (ltb 0 (count_where q s.jobs))) [
      | inr e ↦ absurd (ground (arith, rw e at h))
      | inl e ↦
          let w = update-Wrote i q f s u (own_pending i) (λ j. refl) (ground (arith, e)) in
          let same = reread-success t (get_job i t) w.after (rw e at h) in
          rw e (
            rw (reread_store t (get_job i t)) (record {
              before = w.before;
              inside = w.inside;
              fit = hit_pending i w.before w.hit;
              result = same;
              row = w.after ∙ ap some (sym same);
            }))
    ]

patch_found-success :
    (i : ℕ) (flow_id : Option ℕ) (priority : Option ℤ) (between : Store → Store) (s : Store)
    {k : Job}
    → (o : Option Job) → (patch_found i flow_id priority between s o).1 ≡ success (some k)
    → ((patch_counted i (between s) (patch_pending_job i flow_id priority (between s))).1
        ≡ success (some k))
      × (patch_found i flow_id priority between s o
          ≡ patch_counted i (between s) (patch_pending_job i flow_id priority (between s)))
patch_found-success i f p between s none h = absurd (ground (arith, h))
patch_found-success i f p between s (some j) h = elim (Bool-cases (not (is_pending j.status))) [
  | inl e ↦ absurd (ground (arith, rw e at h))
  | inr e ↦ elim (Bool-cases (flow_missing f s)) [
    | inl d ↦ absurd (ground (arith, rw d at (rw e at h)))
    | inr d ↦ (rw d at (rw e at h), rw e (rw d refl))
  ]
]

-- With unique job ids at the write, a patch that answers with a row has written it in one
-- statement: the job was pending at that moment, whatever happened since the handler read it, and
-- its row has the new flow and priority.
pub handle_patch_job-success :
    (i : ℕ) (flow_id : Option ℕ) (priority : Option ℤ) (between : Store → Store) (s : Store)
    {k : Job}
    → UniqueIds (between s).jobs
    → (handle_patch_job i flow_id priority between s).1 ≡ success (some k)
    → Patched i flow_id priority k (between s) (handle_patch_job i flow_id priority between s).0
unfolding handle_patch_job patch_pending_job
handle_patch_job-success i none none between s u h = absurd (ground (arith, h))
handle_patch_job-success i (some f) none between s u h =
    let (a, b) = patch_found-success i (some f) none between s (get_job i s) h in
    rw b (patch_counted-success i (some f) none (between s) u a)
handle_patch_job-success i none (some p) between s u h =
    let (a, b) = patch_found-success i none (some p) between s (get_job i s) h in
    rw b (patch_counted-success i none (some p) (between s) u a)
handle_patch_job-success i (some f) (some p) between s u h =
    let (a, b) = patch_found-success i (some f) (some p) between s (get_job i s) h in
    rw b (patch_counted-success i (some f) (some p) (between s) u a)
