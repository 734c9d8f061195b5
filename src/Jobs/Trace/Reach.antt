-- ===== src/Jobs/Trace/Reach.antt =====
-- The states that runs of ordinary operations lead to.
use encode_system.Prelude.{ℕ, ◌≡◌, refl, sym, ap, ◌∙◌, List, [], ◌∷◌, ◌++◌, All, All-append}
use encode_system.Jobs.{Store}
use encode_system.Jobs.Trace.{Op, apply, run}
use encode_system.Jobs.Trace.Capacity.{IsOrdinary}

abbrev pub AreOrdinary : List (ℕ × Op) → Type 0
AreOrdinary ops = All (λ (op : ℕ × Op). IsOrdinary op.1) ops

-- `t` is what a run of ordinary operations makes of `s`.
pub record Reached (s t : Store) : Type 0 where
  pub ops : List (ℕ × Op)
  pub ordinary : AreOrdinary ops
  pub made : t ≡ run ops s

pub Reached-refl : (s : Store) → Reached s s
unfolding run
Reached-refl s = record { ops = []; ordinary = tt; made = refl }

run-append : (xs ys : List (ℕ × Op)) (s : Store) → run (xs ++ ys) s ≡ run ys (run xs s)
unfolding run
run-append [] ys s = refl
run-append ((now, op) ∷ xs) ys s = run-append xs ys (apply now op s)

pub Reached-then :
    {s t : Store} (now : ℕ) (op : Op) → Reached s t → IsOrdinary op → Reached s (apply now op t)
unfolding run
Reached-then {s} {t} now op r h = record {
  ops = r.ops ++ (now, op) ∷ [];
  ordinary = All-append _ r.ops ((now, op) ∷ []) r.ordinary (h, tt);
  made = ap (apply now op) r.made ∙ sym (run-append r.ops ((now, op) ∷ []) s);
}
