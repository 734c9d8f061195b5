-- ===== src/Jobs/Ids.antt =====
-- The primary key of the jobs table.
use mathlib.Core.List.{Memᴰ}
use encode_system.Prelude.{ℕ, ◌≡◌, sym, ap, ◌∙◌, List, Bool, true, some, ◌==◌, ==_iff}
use encode_system.Table.Counts.{select_one-some}
use encode_system.Table.Rows.{select_one-hit}
use encode_system.Model.{Job}
use encode_system.Jobs.{Store, get_job}

-- An id names one row.
abbrev pub UniqueIds : List Job → Type 0
UniqueIds js = (j k : Job) → Memᴰ j js → Memᴰ k js → j.id ≡ k.id → j ≡ k

-- with unique ids, the row that a test on an id finds is any row of that id
pub get_job_unique :
    (i : ℕ) (s : Store) (k : Job)
    → UniqueIds s.jobs
    → Memᴰ k s.jobs
    → (k.id == i) ≡ true
    → get_job i s ≡ some k
unfolding get_job
get_job_unique i s k u m h =
    let p : Job → Bool = λ j. j.id == i in
    let (y, e) = select_one-hit p s.jobs m h in
    let (hy, my) = select_one-some p s.jobs e in
    e ∙ ap some (u y k my m ((==_iff y.id i).0 hy ∙ sym ((==_iff k.id i).0 h)))
