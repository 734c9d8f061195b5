-- ===== src/Complete/Outcomes.antt =====
-- What a completion report leaves in the table, and that a second one changes nothing.
use encode_system.Prelude.{
  ℕ, ◌≡◌, ◌≢◌, ◌+◌, ◌*◌, ◌⊎◌, inl, inr, refl, sym, ap, ◌∙◌, [], Bool, true, false, not, ◌&&◌,
  Option, none, some, ◌==◌, if◌then◌else◌, arith, Bool-cases,
}
use encode_system.Prelude.Results.{Result, ok, err}
use encode_system.Table.{count_where, update_where}
use encode_system.Table.Rows.{changed, select_one-update, count_where-some}
use encode_system.Model.{Job, JobStatus, Node, Flow, failed, pending, terminal}
use encode_system.Jobs.Ids.{get_job_unique}
use encode_system.Jobs.{
  Store, Report, FinishError, get_job, get_flow, is_failed, live_with_id, finish_row_with_report,
  finish_job_with_report,
}
use encode_system.Jobs.Lifecycle.{release_node, schedule_job_retry, requeue_row}
use encode_system.Jobs.Ids.{UniqueIds}
use encode_system.Server.{Env, should_auto_retry, exhausted, retry_with, backoff_minutes}
use encode_system.Complete.{
  forbidden, already_recorded, recorded, Outcome, reported_status, close_unless, retried, finished,
  complete_row, handle_job_complete,
}

-- A successful guarded finish: the live row of the id, and what it becomes.
pub finish_job_with_report-ok :
    (now i : ℕ) (st : JobStatus) (r : Report) (s : Store) {t : Store}
    → UniqueIds s.jobs
    → finish_job_with_report now i st r s ≡ ok t
    → (k : Job) × (live_with_id i k ≡ true)
      × (get_job i t ≡ some (finish_row_with_report now st r k))
unfolding finish_job_with_report live_with_id get_job
finish_job_with_report-ok now i st r s {t} u h =
    elim (Bool-cases (count_where (live_with_id i) s.jobs == 0)) [
      | inl e ↦ absurd (ground (arith, e))
      | inr e ↦
          let (k, m, hk) = count_where-some (live_with_id i) s.jobs e in
          let own : (k.id == i) ≡ true = ground (arith, hk) in
          let rows : t.jobs
              ≡ update_where (live_with_id i) (finish_row_with_report now st r) s.jobs =
            ground (arith, e) in
          (
            k,
            hk,
            rw rows (
                select_one-update (λ j. j.id == i) (live_with_id i)
                  (finish_row_with_report now st r) (λ x. refl) s.jobs
                ∙ ap (changed (live_with_id i) (finish_row_with_report now st r))
                    (get_job_unique i s k u m own)
                ∙ rw hk refl),
          )
    ]

-- The job that a recorded report is about: in the reported status, or waiting again for any node with
-- nothing sent out.
pub record Settled (i : ℕ) (rep : Report) (o : Outcome) : Type 0 where
  pub job : Job
  pub row : get_job i o.store ≡ some job
  pub state :
      (job.status ≡ reported_status rep)
      ⊎ ((job.status ≡ pending) × (job.node_id ≡ 0) × (o.effects ≡ []) × (rep.is_done ≡ false))

-- the re-queued row of a failed job
get_job-schedule_job_retry :
    (i c g : ℕ) (s : Store) (k : Job)
    → (k.id == i) ≡ true
    → k.status ≡ failed
    → get_job i s ≡ some k
    → get_job i (schedule_job_retry i c g s) ≡ some (requeue_row c (some g) k)
unfolding get_job schedule_job_retry
get_job-schedule_job_retry i c g s k own f h =
    let q : Job → Bool = λ j. j.id == i && is_failed j.status in
    select_one-update (λ j. j.id == i) q (requeue_row c (some g)) (λ x. refl) s.jobs
    ∙ ap (changed q (requeue_row c (some g))) h
    ∙ rw own (rw f refl)

-- A retry is scheduled for one job, or the tables are left alone.
should_auto_retry_lem :
    (now : ℕ) (j : Job) (i : ℕ) (s : Store)
    → (should_auto_retry now j i s ≡ (false, s))
      ⊎ ((c : ℕ) × (g : ℕ) × (should_auto_retry now j i s ≡ (true, schedule_job_retry i c g s)))
unfolding should_auto_retry
should_auto_retry_lem now j i s = settle (get_flow j.flow_id s)
  where
    settle :
        (o : Option Flow)
        → (retry_with now j i s o ≡ (false, s))
          ⊎ ((c : ℕ) × (g : ℕ) × (retry_with now j i s o ≡ (true, schedule_job_retry i c g s)))
    settle none = inl refl
    settle (some fl) = elim (Bool-cases (exhausted fl.max_retries j.retry_count)) [
      | inl e ↦ inl (rw e refl)
      | inr e ↦
          inr (j.retry_count + 1, now + backoff_minutes fl.retry_backoff_minutes * 60, rw e refl)
    ]

retried_lem :
    (env : Env) (i : ℕ) (rep : Report) (j : Job) (s : Store)
    → (retried env i rep j s ≡ (false, s))
      ⊎ ((rep.is_done ≡ false)
          × ((c : ℕ) × (g : ℕ) × (retried env i rep j s ≡ (true, schedule_job_retry i c g s))))
retried_lem env i rep j s = elim (Bool-cases rep.is_done) [
  | inl d ↦ inl (rw d refl)
  | inr d ↦ elim (should_auto_retry_lem env.now j i s) [
    | inl e ↦ inl (rw d e)
    | inr (c, g, e) ↦ inr (d, (c, g, rw d e))
  ]
]

failed_report : (rep : Report) → rep.is_done ≡ false → reported_status rep ≡ failed
failed_report rep h = rw h refl

close_unless-Settled :
    (env : Env) (i : ℕ) (rep : Report) (n : Node) (j k : Job) (s : Store)
    → (k.id == i) ≡ true
    → k.status ≡ reported_status rep
    → get_job i s ≡ some k
    → Settled i rep (close_unless env i rep n (retried env i rep j s))
unfolding requeue_row
close_unless-Settled env i rep n j k s own st h = elim (retried_lem env i rep j s) [
  | inl e ↦ rw e (record { job = k; row = h; state = inl st })
  | inr (d, (c, g, e)) ↦ rw e (record {
    job = requeue_row c (some g) k;
    row = get_job-schedule_job_retry i c g s k own (st ∙ failed_report rep d) h;
    state = inr (refl, refl, refl, d);
  })
]

finished-Settled :
    (env : Env) (i : ℕ) (rep : Report) (n : Node) (j : Job) (s : Store)
    → UniqueIds s.jobs
    → (r : Result FinishError Store)
    → finish_job_with_report env.now i (reported_status rep) rep s ≡ r
    → (finished env i rep n j s r).answer ≡ recorded
    → Settled i rep (finished env i rep n j s r)
unfolding release_node get_job finish_row_with_report live_with_id
finished-Settled env i rep n j s u (err x) e h = cc
finished-Settled env i rep n j s u (ok t) e h =
    let (k, own, row) = finish_job_with_report-ok env.now i (reported_status rep) rep s u e in
    close_unless-Settled env i rep n j (finish_row_with_report env.now (reported_status rep) rep k)
      (release_node n.id t) (ground (arith, own)) refl row

complete_row-Settled :
    (env : Env) (i : ℕ) (rep : Report) (n : Node) (between : Store → Store) (s : Store)
    → UniqueIds (between s).jobs
    → (o : Option Job) → (complete_row env i rep n between s o).answer ≡ recorded
    → Settled i rep (complete_row env i rep n between s o)
complete_row-Settled env i rep n between s u none h = cc
complete_row-Settled env i rep n between s u (some j) h =
    elim (Bool-cases (not (j.node_id == n.id))) [
      | inl e ↦ absurd (ground (arith, h, e))
      | inr e ↦ elim (Bool-cases (terminal j.status)) [
        | inl d ↦ absurd (ground (arith, h, e, d))
        | inr d ↦
            rw e (rw d (finished-Settled env i rep n j (between s) u _ refl (rw d at (rw e at h))))
      ]
    ]

-- A report that is answered "recorded" leaves its job in the reported status; or, only for a failed one,
-- waiting again for any node, and then without an event or a notification. That holds whatever other
-- requests did between the handler's read and its write, as long as ids stay unique.
pub handle_job_complete-recorded :
    (env : Env) (i : ℕ) (rep : Report) (n : Node) (between : Store → Store) (s : Store)
    → UniqueIds (between s).jobs
    → (handle_job_complete env i rep n between s).answer ≡ recorded
    → Settled i rep (handle_job_complete env i rep n between s)
unfolding handle_job_complete
handle_job_complete-recorded env i rep n between s u h =
    complete_row-Settled env i rep n between s u (get_job i s) h

-- what a report does to a job that is terminal, or on no node
refused :
    (env : Env) (i : ℕ) (rep : Report) (n : Node) (between : Store → Store) (s : Store) (j : Job)
    → n.id ≢ 0
    → (terminal j.status ≡ true) ⊎ (j.node_id ≡ 0)
    → complete_row env i rep n between s (some j) ≡ record {
      store = s;
      effects = [];
      answer = if j.node_id == n.id then already_recorded else forbidden;
    }
refused env i rep n between s j ne (inl t) = elim (Bool-cases (j.node_id == n.id)) [
  | inl e ↦ rw e (rw t refl)
  | inr e ↦ rw e refl
]
refused env i rep n between s j ne (inr z) =
    let e : (j.node_id == n.id) ≡ false = ground (arith, z, ne) in rw e refl

not_recorded : (b : Bool) → (if b then already_recorded else forbidden) ≢ recorded
not_recorded true = λ e. ground (arith, e)
not_recorded false = λ e. ground (arith, e)

Settled-refused :
    (i : ℕ) (rep : Report) (o : Outcome)
    → (v : Settled i rep o) → (terminal v.job.status ≡ true) ⊎ (v.job.node_id ≡ 0)
Settled-refused i rep o v = elim v.state [
  | inl e ↦ inl (rw e (elim (Bool-cases rep.is_done) [ inl d ↦ rw d refl | inr d ↦ rw d refl ]))
  | inr (e, z, f, d) ↦ inr z
]

Settled-again :
    (env : Env) (i : ℕ) (rep again : Report) (n : Node) (between : Store → Store) (o : Outcome)
    → n.id ≢ 0
    → (v : Settled i rep o)
    → handle_job_complete env i again n between o.store ≡ record {
      store = o.store;
      effects = [];
      answer = if v.job.node_id == n.id then already_recorded else forbidden;
    }
unfolding handle_job_complete
Settled-again env i rep again n between o ne v =
    ap (complete_row env i again n between o.store) v.row
    ∙ refused env i again n between o.store v.job ne (Settled-refused i rep o v)

-- With unique job ids, and a node id that is not 0: after a recorded report that nothing came
-- between, no further report of the job by the same node, whatever it says and whatever comes
-- between its read and its write, changes the tables, sends anything out or is recorded.
pub handle_job_complete_again :
    (env later : Env) (i : ℕ) (rep again : Report) (n : Node) (between : Store → Store) (s : Store)
    → n.id ≢ 0
    → UniqueIds s.jobs
    → (handle_job_complete env i rep n (λ t. t) s).answer ≡ recorded
    → ((handle_job_complete later i again n between
          (handle_job_complete env i rep n (λ t. t) s).store).store
        ≡ (handle_job_complete env i rep n (λ t. t) s).store)
      × ((handle_job_complete later i again n between
            (handle_job_complete env i rep n (λ t. t) s).store).effects
          ≡ [])
      × ((handle_job_complete later i again n between
            (handle_job_complete env i rep n (λ t. t) s).store).answer
          ≢ recorded)
handle_job_complete_again env later i rep again n between s ne u h =
    let o = handle_job_complete env i rep n (λ t. t) s in
    let v = handle_job_complete-recorded env i rep n (λ t. t) s u h in
    let e = Settled-again later i rep again n between o ne v in
    (
      ap (λ (x : Outcome). x.store) e,
      ap (λ (x : Outcome). x.effects) e,
      λ q. not_recorded (v.job.node_id == n.id) (sym (ap (λ (x : Outcome). x.answer) e) ∙ q),
    )
