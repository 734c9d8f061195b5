-- ===== src/Operator/Honest.antt =====
-- What the reply to an operator's request says of the tables, whatever happens between the handler's
-- read and its write.
use encode_system.Prelude.{
  ℕ, ◌≡◌, inl, inr, refl, sym, ap, ◌∙◌, Bool, true, false, ◌&&◌, Option, none, some, ◌==◌, ltb,
  if◌then◌else◌, arith, Bool-cases, Option-cases, ==_iff,
}
use encode_system.Table.{select_one, delete_where}
use encode_system.Table.Counts.{select_one-some, Memᴰ-delete_from}
use encode_system.Table.Rows.{changed, select_one-update, count_where-some, Memᴰ-delete_kept}
use encode_system.Model.{Job, terminal}
use encode_system.Jobs.{Store, get_job}
use encode_system.Jobs.Lifecycle.{cancellable, cancel_job, cancel_row, delete_job, release_node}
use encode_system.Jobs.Ids.{UniqueIds}
use encode_system.Operator.{
  success, handle_cancel_job, cancel_counted, handle_delete_job, delete_found, is_assigned,
}

both_same : (b : Bool) (f : Job → Job) (k : Job) → (if b && false then f k else k) ≡ k
both_same true f k = refl
both_same false f k = refl

-- a cancel whose statement misses the job's row
cancel_job-miss :
    (now i : ℕ) (s : Store) (k : Job)
    → get_job i s ≡ some k
    → cancellable k.status ≡ false
    → get_job i (cancel_job now i s).0 ≡ some k
unfolding get_job cancel_job
cancel_job-miss now i s k h late =
    let p : Job → Bool = λ j. j.id == i && cancellable j.status in
    select_one-update (λ j. j.id == i) p (cancel_row now) (λ x. refl) s.jobs
    ∙ ap (changed p (cancel_row now)) h
    ∙ rw late (ap some (both_same (k.id == i) (cancel_row now) k))

-- the release of the node leaves the jobs
cancel_counted_lem :
    (j : Job) (r : Store × ℕ) (i : ℕ) (k : Job)
    → get_job i r.0 ≡ some k
    → ((cancel_counted j r).1 ≡ success none) × (get_job i (cancel_counted j r).0 ≡ some k)
unfolding get_job release_node
cancel_counted_lem j (s, n) i k h = elim (Bool-cases (is_assigned j.status && ltb 0 n)) [
  | inl e ↦ rw e (refl, h)
  | inr e ↦ rw e (refl, h)
]

-- with unique ids, a delete that counts a row leaves none of its id
delete_job-gone :
    (i : ℕ) (s : Store)
    → UniqueIds s.jobs
    → (delete_job i s).1 ≡ true
    → get_job i (delete_job i s).0 ≡ none
unfolding get_job delete_job
delete_job-gone i s u h =
    let p : Job → Bool = λ j. j.id == i && terminal j.status in
    let (x, mx, hx) = count_where-some p s.jobs (ground (arith, h)) in
    elim (Option-cases (select_one (λ j. j.id == i) (delete_where p s.jobs))) [
      | inl e ↦ e
      | inr (y, e) ↦
          let (hy, my) = select_one-some (λ j. j.id == i) (delete_where p s.jobs) e in
          let old = Memᴰ-delete_from p s.jobs my in
          let kept = Memᴰ-delete_kept p s.jobs my in
          let same : y ≡ x =
            u y x old mx ((==_iff y.id i).0 hy ∙ sym ((==_iff x.id i).0 (ground (arith, hx)))) in
          absurd (ground (arith, ap p same, hx, kept))
    ]

delete_found-gone :
    (i : ℕ) (between : Store → Store) (s : Store)
    → UniqueIds (between s).jobs
    → (o : Option Job) → (delete_found i between s o).1 ≡ success none
    → get_job i (delete_found i between s o).0 ≡ none
delete_found-gone i between s u none h = absurd (ground (arith, h))
delete_found-gone i between s u (some j) h = elim (Bool-cases (terminal j.status)) [
  | inl e ↦ elim (Bool-cases (delete_job i (between s)).1) [
    | inl d ↦ rw e (rw d (delete_job-gone i (between s) u d))
    | inr d ↦ absurd (ground (arith, rw d at (rw e at h)))
  ]
  | inr e ↦ absurd (ground (arith, rw e at h))
]

-- A cancel that another request overtakes: when the job could be cancelled at the read, and not any more
-- at the write (it runs by then), the reply is a success all the same, and the job is as it was.
pub handle_cancel_job_overtaken :
    (now i : ℕ) (between : Store → Store) (s : Store) (j k : Job)
    → get_job i s ≡ some j
    → cancellable j.status ≡ true
    → get_job i (between s) ≡ some k
    → cancellable k.status ≡ false
    → ((handle_cancel_job now i between s).1 ≡ success none)
      × (get_job i (handle_cancel_job now i between s).0 ≡ some k)
unfolding handle_cancel_job
handle_cancel_job_overtaken now i between s j k h c g late = rw h (
    rw c (
      cancel_counted_lem j (cancel_job now i (between s)) i k
        (cancel_job-miss now i (between s) k g late)))

-- With unique job ids at the write, a successful delete leaves no row of the id.
pub handle_delete_job-gone :
    (i : ℕ) (between : Store → Store) (s : Store)
    → UniqueIds (between s).jobs
    → (handle_delete_job i between s).1 ≡ success none
    → get_job i (handle_delete_job i between s).0 ≡ none
unfolding handle_delete_job
handle_delete_job-gone i between s u h = delete_found-gone i between s u (get_job i s) h
