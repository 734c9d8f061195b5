-- ===== src/Scanner/Settled.antt =====
-- A scan cycle that is run again (backend/internal/scanner/loop.go).
use mathlib.Core.Path.{subst}
use mathlib.Core.List.{Memᴰ}
use Prim.Native.String.{String}
use text.Mathlib.TextPositions.{eq_refl}
use encode_system.Prelude.{
  ℕ, ◌≤◌, ◌≡◌, inl, inr, refl, sym, ap, ◌∙◌, List, [], ◌∷◌, true, not, ◌||◌, Option, none, some,
  arith, ◌=s=◌, Bool-cases, if_both,
}
use encode_system.Table.{count_where}
use encode_system.Table.Counts.{Memᴰ-uncons}
use encode_system.Table.Rows.{select_one-append, select_one-append_new}
use encode_system.Model.{Flow, Series}
use encode_system.Jobs.{Store, create_job}
use encode_system.Scanner.{Candidate}
use encode_system.Scanner.Loop.{
  Cycle, covers, job_exists_for_episode, series_by_name, new_series, insert_series, or_insert,
  create_with, upsert_series_by_name, resolve_series_flow, create_for, scan_candidate,
  scan_candidates,
}
use encode_system.Scanner.Once.{count-create}

-- a cycle at another time
abbrev pub at_time : ℕ → Cycle → Cycle
at_time now cy = record cy { now = now }

module _ (cy : Cycle) where
  -- Nothing is left to do for the series of the candidate.
  data Closed (c : Candidate) (sr : Series) (s : Store) : Type 0 where
    off : not sr.enabled || sr.paused ≡ true → Closed c sr s
    exists : job_exists_for_episode c.episode_dir s ≡ true → Closed c sr s
    no_flow : resolve_series_flow sr cy.default_flow_name s ≡ none → Closed c sr s

  Settled : Candidate → Store → Type 0
  Settled c s = (sr : Series) × (series_by_name c.series s ≡ some sr) × Closed c sr s

  -- what a step keeps
  record Grown (s t : Store) : Type 0 where
    same_flows : t.flows ≡ s.flows
    keeps_series :
        (name : String) (sr : Series)
        → series_by_name name s ≡ some sr
        → series_by_name name t ≡ some sr
    keeps_jobs : (dir : String) → count_where (covers dir) s.jobs ≤ count_where (covers dir) t.jobs

  Grown-refl : (s : Store) → Grown s s
  Grown-refl s = record {
    same_flows = refl;
    keeps_series = λ name sr q. q;
    keeps_jobs = λ dir. omega arith;
  }

  Grown-trans : {s t u : Store} → Grown s t → Grown t u → Grown s u
  Grown-trans g h = record {
    same_flows = h.same_flows ∙ g.same_flows;
    keeps_series = λ name sr q. h.keeps_series name sr (g.keeps_series name sr q);
    keeps_jobs = λ dir. omega (arith, g.keeps_jobs dir, h.keeps_jobs dir);
  }

  resolve-flows :
      (sr : Series) (name : String) (s t : Store)
      → t.flows ≡ s.flows
      → resolve_series_flow sr name t ≡ resolve_series_flow sr name s
  unfolding resolve_series_flow
  resolve-flows sr name s t e = ap (λ fs. resolve_series_flow sr name (record s { flows = fs })) e

  Settled-Grown : (c : Candidate) {s t : Store} → Grown s t → Settled c s → Settled c t
  unfolding job_exists_for_episode Settled
  Settled-Grown c {s} {t} g (sr, q, off e) = (sr, g.keeps_series c.series sr q, off e)
  Settled-Grown c {s} {t} g (sr, q, exists e) =
      let h = g.keeps_jobs c.episode_dir in
      (sr, g.keeps_series c.series sr q, exists (ground (arith, e, h)))
  Settled-Grown c {s} {t} g (sr, q, no_flow e) = (
    sr,
    g.keeps_series c.series sr q,
    no_flow (resolve-flows sr cy.default_flow_name s t g.same_flows ∙ e),
  )

  or_insert-Grown : (name : String) (s : Store) (o : Option Series) → Grown s (or_insert name s o)
  unfolding series_by_name
  or_insert-Grown name s (some sr) = Grown-refl s
  or_insert-Grown name s none = record {
    same_flows = refl;
    keeps_series =
        λ other sr q. select_one-append (λ r. r.name =s= other) s.series (new_series name ∷ []) q;
    keeps_jobs = λ dir. omega arith;
  }

  insert_series-Grown : (name : String) (s : Store) → Grown s (insert_series name s)
  unfolding insert_series
  insert_series-Grown name s = or_insert-Grown name s (series_by_name name s)

  create_with-Grown : (c : Candidate) (s : Store) (o : Option Flow) → Grown s (create_with cy c s o)
  unfolding create_job series_by_name
  create_with-Grown c s none = Grown-refl s
  create_with-Grown c s (some fl) = record {
    same_flows = refl;
    keeps_series = λ name sr q. q;
    keeps_jobs = λ dir. ground (arith, count-create cy c fl s dir);
  }

  create_for-Grown : (c : Candidate) (s : Store) (o : Option Series) → Grown s (create_for cy c s o)
  unfolding create_for
  create_for-Grown c s none = Grown-refl s
  create_for-Grown c s (some sr) = if_both (Grown s) (not sr.enabled || sr.paused) (Grown-refl s) (
      if_both (Grown s) (job_exists_for_episode c.episode_dir s) (Grown-refl s)
        (create_with-Grown c s (resolve_series_flow sr cy.default_flow_name s)))

  scan_candidate-Grown : (c : Candidate) (s : Store) → Grown s (scan_candidate cy c s)
  unfolding scan_candidate upsert_series_by_name
  scan_candidate-Grown c s =
      let t = insert_series c.series s in
      Grown-trans (insert_series-Grown c.series s)
        (create_for-Grown c t (series_by_name c.series t))

  scan_candidates-Grown : (cs : List Candidate) (s : Store) → Grown s (scan_candidates cy cs s)
  unfolding scan_candidates
  scan_candidates-Grown [] s = Grown-refl s
  scan_candidates-Grown (c ∷ cs) s =
      Grown-trans (scan_candidate-Grown c s) (scan_candidates-Grown cs (scan_candidate cy c s))

  -- the series is there once it is inserted
  or_insert-found :
      (name : String) (s : Store) (o : Option Series)
      → series_by_name name s ≡ o
      → (sr : Series) × (series_by_name name (or_insert name s o) ≡ some sr)
  unfolding series_by_name
  or_insert-found name s (some sr) q = (sr, q)
  or_insert-found name s none q = (
    new_series name,
    select_one-append_new (λ r. r.name =s= name) s.series (new_series name) (eq_refl name) q,
  )

  create_with-Closed :
      (c : Candidate) (s : Store) (sr : Series) (o : Option Flow)
      → resolve_series_flow sr cy.default_flow_name s ≡ o
      → Closed c sr (create_with cy c s o)
  unfolding job_exists_for_episode
  create_with-Closed c s sr none q = no_flow q
  create_with-Closed c s sr (some fl) q =
      let more = count-create cy c fl s c.episode_dir in
      exists (ground (arith, more, eq_refl c.episode_dir))

  create_for-Closed :
      (c : Candidate) (s : Store) (sr : Series) → Closed c sr (create_for cy c s (some sr))
  unfolding create_for
  create_for-Closed c s sr = elim (Bool-cases (not sr.enabled || sr.paused)) [
    | inl e ↦ rw e (off e)
    | inr e ↦ rw e (elim (Bool-cases (job_exists_for_episode c.episode_dir s)) [
      | inl x ↦ rw x (exists x)
      | inr x ↦
          rw x (create_with-Closed c s sr (resolve_series_flow sr cy.default_flow_name s) refl)
    ])
  ]

  scan_candidate-Settled : (c : Candidate) (s : Store) → Settled c (scan_candidate cy c s)
  unfolding scan_candidate upsert_series_by_name insert_series Settled
  scan_candidate-Settled c s =
      let t = insert_series c.series s in
      let (sr, q) = or_insert-found c.series s (series_by_name c.series s) refl in
      subst (λ o. Settled c (create_for cy c t o)) (sym q)
        (sr, (create_for-Grown c t (some sr)).keeps_series c.series sr q, create_for-Closed c t sr)

  -- a step that finds its work done
  create_for_idem :
      (now : ℕ) (c : Candidate) (s : Store) (sr : Series)
      → Closed c sr s
      → create_for (at_time now cy) c s (some sr) ≡ s
  unfolding create_for
  create_for_idem now c s sr (off e) = rw e refl
  create_for_idem now c s sr (exists e) =
      if_both (λ z. z ≡ s) (not sr.enabled || sr.paused) refl (rw e refl)
  create_for_idem now c s sr (no_flow e) =
      if_both (λ z. z ≡ s) (not sr.enabled || sr.paused) refl
        (if_both (λ z. z ≡ s) (job_exists_for_episode c.episode_dir s) refl (rw e refl))

  scan_candidate_idem :
      (now : ℕ) (c : Candidate) (s : Store) → Settled c s → scan_candidate (at_time now cy) c s ≡ s
  unfolding scan_candidate upsert_series_by_name insert_series Settled
  scan_candidate_idem now c s (sr, q, closed) =
      let there : insert_series c.series s ≡ s = rw q refl in
      let again : create_for (at_time now cy) c s (series_by_name c.series s) ≡ s =
        subst (λ o. create_for (at_time now cy) c s o ≡ s) (sym q)
          (create_for_idem now c s sr closed) in
      ap (λ t. create_for (at_time now cy) c t (series_by_name c.series t)) there ∙ again

  scan_candidates_idem :
      (now : ℕ) (cs : List Candidate) (s : Store)
      → ((c : Candidate) → Memᴰ c cs → Settled c s)
      → scan_candidates (at_time now cy) cs s ≡ s
  unfolding scan_candidates
  scan_candidates_idem now [] s h = refl
  scan_candidates_idem now (c ∷ cs) s h =
      ap (scan_candidates (at_time now cy) cs) (scan_candidate_idem now c s (h c (Memᴰ.head refl)))
      ∙ scan_candidates_idem now cs s (λ d m. h d (Memᴰ.tail m))

  scan_candidates-Settled :
      (cs : List Candidate) (s : Store) (c : Candidate)
      → Memᴰ c cs
      → Settled c (scan_candidates cy cs s)
  unfolding scan_candidates
  scan_candidates-Settled [] s c m = elim m [ ]
  scan_candidates-Settled (d ∷ cs) s c m = elim (Memᴰ-uncons m) [
    | inl e ↦
        Settled-Grown c (scan_candidates-Grown cs (scan_candidate cy d s))
          (subst (λ z. Settled z (scan_candidate cy d s)) (sym e) (scan_candidate-Settled d s))
    | inr t ↦ scan_candidates-Settled cs (scan_candidate cy d s) c t
  ]

-- A scan cycle that finds the same candidates as the one before it, at any later time, changes nothing
-- in the tables: it makes no second job, and no second series.
pub scan_candidates_twice :
    (cy : Cycle) (now : ℕ) (cs : List Candidate) (s : Store)
    → scan_candidates (at_time now cy) cs (scan_candidates cy cs s) ≡ scan_candidates cy cs s
scan_candidates_twice cy now cs s =
    scan_candidates_idem cy now cs (scan_candidates cy cs s) (scan_candidates-Settled cy cs s)
