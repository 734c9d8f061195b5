-- ===== src/Scanner/Once.antt =====
-- What a scan cycle leaves behind (backend/internal/scanner/loop.go).
use mathlib.Core.Path.{subst}
use Prim.Native.String.{String}
use encode_system.Prelude.{
  ℕ, ◌+◌, ◌≡◌, ◌⊎◌, inl, inr, refl, ap, ◌∙◌, List, [], ◌∷◌, false, not, ◌||◌, Option, none, some,
  arith, ltb, ◌=s=◌, if◌then◌else◌, Bool-cases, eq_iff,
}
use encode_system.Table.{count_where}
use encode_system.Table.Counts.{count-append}
use encode_system.Model.{Flow, Series}
use encode_system.Jobs.{Store, new_row, create_job}
use encode_system.Scanner.{Candidate}
use encode_system.Scanner.Loop.{
  Cycle, covers, job_exists_for_episode, series_by_name, insert_series, upsert_series_by_name,
  or_insert, create_with, resolve_series_flow, candidate_job, create_for, scan_candidate,
  scan_candidates,
}

covers_count : String → Store → ℕ
covers_count dir s = count_where (covers dir) s.jobs

-- the rows of an episode's job that the scan makes
covers-candidate_job :
    (cy : Cycle) (c : Candidate) (fl : Flow) (i : ℕ) (dir : String)
    → covers dir (new_row cy.now i (candidate_job cy c fl)) ≡ (c.episode_dir =s= dir)
unfolding covers new_row candidate_job
covers-candidate_job cy c fl i dir = ground arith

abbrev create : Cycle → Candidate → Flow → Store → Store
create cy c fl s = (create_job cy.now (candidate_job cy c fl) s).0

pub count-create :
    (cy : Cycle) (c : Candidate) (fl : Flow) (s : Store) (dir : String)
    → count_where (covers dir) (create cy c fl s).jobs
      ≡ count_where (covers dir) s.jobs + (if c.episode_dir =s= dir then 1 else 0)
unfolding create_job count_where
count-create cy c fl s dir =
    let row = new_row cy.now s.next_id (candidate_job cy c fl) in
    ground (
      arith,
      count-append (covers dir) s.jobs (row ∷ []),
      covers-candidate_job cy c fl s.next_id dir,
    )

-- a step makes at most one job for an episode, and only where it has none
pub data Makes (c : Candidate) (s t : Store) : Type 0 where
  same : t.jobs ≡ s.jobs → Makes c s t
  one :
      job_exists_for_episode c.episode_dir s ≡ false
      → ((dir : String)
          → count_where (covers dir) t.jobs
            ≡ count_where (covers dir) s.jobs + (if c.episode_dir =s= dir then 1 else 0))
      → Makes c s t

create_with-Makes :
    (cy : Cycle) (c : Candidate) (s : Store) (o : Option Flow)
    → job_exists_for_episode c.episode_dir s ≡ false
    → Makes c s (create_with cy c s o)
create_with-Makes cy c s none x = Makes.same refl
create_with-Makes cy c s (some fl) x = Makes.one x (count-create cy c fl s)

create_for-Makes :
    (cy : Cycle) (c : Candidate) (s : Store) (o : Option Series) → Makes c s (create_for cy c s o)
unfolding create_for
create_for-Makes cy c s none = Makes.same refl
create_for-Makes cy c s (some sr) = elim (Bool-cases (not sr.enabled || sr.paused)) [
  | inl e ↦ rw e (Makes.same refl)
  | inr e ↦ rw e (elim (Bool-cases (job_exists_for_episode c.episode_dir s)) [
    | inl x ↦ rw x (Makes.same refl)
    | inr x ↦ rw x (create_with-Makes cy c s (resolve_series_flow sr cy.default_flow_name s) x)
  ])
]

insert_series-jobs : (name : String) (s : Store) → (insert_series name s).jobs ≡ s.jobs
unfolding insert_series
insert_series-jobs name s =
    elim (series_by_name name s) as (λ o. (or_insert name s o).jobs ≡ s.jobs) [
      | none ↦ refl
      | some sr ↦ refl
    ]

-- the same, seen from a store with the same jobs
Makes-from : {c : Candidate} {s s' t : Store} → s'.jobs ≡ s.jobs → Makes c s' t → Makes c s t
unfolding job_exists_for_episode
Makes-from e (Makes.same q) = Makes.same (q ∙ e)
Makes-from {c} {t = t} e (Makes.one x h) =
    Makes.one (subst (λ js. ltb 0 (count_where (covers c.episode_dir) js) ≡ false) e x) (λ dir.
      subst
        (λ js.
          count_where (covers dir) t.jobs
          ≡ count_where (covers dir) js + (if c.episode_dir =s= dir then 1 else 0))
        e (h dir))

pub scan_candidate-Makes :
    (cy : Cycle) (c : Candidate) (s : Store) → Makes c s (scan_candidate cy c s)
unfolding scan_candidate upsert_series_by_name
scan_candidate-Makes cy c s =
    let t = insert_series c.series s in
    Makes-from (insert_series-jobs c.series s) (create_for-Makes cy c t (series_by_name c.series t))

-- A scan cycle leaves the number of jobs of an episode that are not cancelled as it was, or makes the
-- episode's first: there is then exactly one.
pub count-scan_candidates :
    (cy : Cycle) (cs : List Candidate) (s : Store) (dir : String)
    → (count_where (covers dir) (scan_candidates cy cs s).jobs ≡ count_where (covers dir) s.jobs)
      ⊎ ((count_where (covers dir) s.jobs ≡ 0)
          × (count_where (covers dir) (scan_candidates cy cs s).jobs ≡ 1))
unfolding scan_candidates job_exists_for_episode
count-scan_candidates cy [] s dir = inl refl
count-scan_candidates cy (c ∷ cs) s dir =
    let h = count-scan_candidates cy cs (scan_candidate cy c s) dir in
    elim (scan_candidate-Makes cy c s) [
      | Makes.same e ↦ let q = ap (count_where (covers dir)) e in ground (arith, h, q)
      | Makes.one x more ↦ elim (Bool-cases (c.episode_dir =s= dir)) [
        | inl d ↦
            let q = more dir in
            let x' : ltb 0 (count_where (covers dir) s.jobs) ≡ false =
              subst (λ z. job_exists_for_episode z s ≡ false) ((eq_iff c.episode_dir dir).0 d) x in
            ground (arith, h, q, x', d)
        | inr d ↦ let q = more dir in ground (arith, h, q, d)
      ]
    ]
