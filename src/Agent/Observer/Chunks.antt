-- ===== src/Agent/Observer/Chunks.antt =====
-- How a process's output is cut into writes does not matter.
use mathlib.Core.List.{append_assoc, append-nil}
use encode_system.Prelude.{
  ℕ, ◌≡◌, refl, sym, ap, ◌∙◌, List, [], ◌∷◌, ◌++◌, false, ◌==◌, Bool-cases, inl, inr, All,
  All-append,
}
use encode_system.FullLog.{newline}
use encode_system.Agent.Observer.{Patterns, Trackers, Observer, feed, scan, write}

abbrev pub NoNewline : List ℕ → Type 0
NoNewline cs = All (λ (c : ℕ). (c == newline) ≡ false) cs

scan-append :
    (re : Patterns) (at : ℕ) (xs ys : List ℕ) (st : List ℕ × Trackers)
    → scan re at (xs ++ ys) st ≡ scan re at ys (scan re at xs st)
unfolding scan
scan-append re at [] ys st = refl
scan-append re at (x ∷ xs) ys st = scan-append re at xs ys (feed re at x st)

-- a part without a newline is only carried along
scan-NoNewline :
    (re : Patterns) (at : ℕ) (xs line : List ℕ) (t : Trackers)
    → NoNewline xs
    → scan re at xs (line, t) ≡ (line ++ xs, t)
unfolding scan feed
scan-NoNewline re at [] line t h = ap (λ l. (l, t)) (sym (append-nil line))
scan-NoNewline re at (x ∷ xs) line t (h, hs) = rw h (
    scan-NoNewline re at xs (line ++ x ∷ []) t hs
    ∙ ap (λ l. (l, t)) (append_assoc line (x ∷ []) xs))

feed-NoNewline :
    (re : Patterns) (at c : ℕ) (line : List ℕ) (t : Trackers)
    → NoNewline line
    → NoNewline (feed re at c (line, t)).0
unfolding feed
feed-NoNewline re at c line t h = elim (Bool-cases (c == newline)) [
  | inl e ↦ rw e tt
  | inr e ↦ rw e (All-append _ line (c ∷ []) h (e, tt))
]

-- what is left behind the last complete line holds no newline
scan-rest :
    (re : Patterns) (at : ℕ) (xs line : List ℕ) (t : Trackers)
    → NoNewline line
    → NoNewline (scan re at xs (line, t)).0
unfolding scan
scan-rest re at [] line t h = h
scan-rest re at (x ∷ xs) line t h =
    let st = feed re at x (line, t) in
    scan-rest re at xs st.0 st.1 (feed-NoNewline re at x line t h)

write-remainder :
    (re : Patterns) (at : ℕ) (p : List ℕ) (o : Observer) → NoNewline (write re at p o).remainder
unfolding write
write-remainder re at p o = scan-rest re at (o.remainder ++ p) [] o.trackers tt

record_eq :
    {o q : Observer} → o.trackers ≡ q.trackers → o.buf ≡ q.buf → o.remainder ≡ q.remainder → o ≡ q
record_eq e f g = λ i. record { trackers = e i; buf = f i; remainder = g i }

-- a scan goes on where another one stopped
scan-resumes :
    (re : Patterns) (at : ℕ) (q : List ℕ) (st : List ℕ × Trackers)
    → NoNewline st.0
    → scan re at (st.0 ++ q) ([], st.1) ≡ scan re at q st
scan-resumes re at q (line, t) h =
    scan-append re at line q ([], t) ∙ ap (scan re at q) (scan-NoNewline re at line [] t h)

-- The data of one write can come in two.
write-append :
    (re : Patterns) (at : ℕ) (p q : List ℕ) (o : Observer)
    → write re at (p ++ q) o ≡ write re at q (write re at p o)
unfolding write
write-append re at p q o =
    let st = scan re at (o.remainder ++ p) ([], o.trackers) in
    let whole : scan re at (o.remainder ++ (p ++ q)) ([], o.trackers) ≡ scan re at q st =
      ap (λ xs. scan re at xs ([], o.trackers)) (sym (append_assoc o.remainder p q))
      ∙ scan-append re at (o.remainder ++ p) q ([], o.trackers) in
    let parts = scan-resumes re at q st (scan-rest re at (o.remainder ++ p) [] o.trackers tt) in
    let same = whole ∙ sym parts in
    record_eq (ap (λ (x : List ℕ × Trackers). x.1) same) (sym (append_assoc o.buf p q))
      (ap (λ (x : List ℕ × Trackers). x.0) same)

-- the writes of a process, in turn
unfoldable pub write_all : Patterns → ℕ → List (List ℕ) → Observer → Observer
write_all re at [] o = o
write_all re at (p ∷ ps) o = write_all re at ps (write re at p o)

unfoldable pub joined : List (List ℕ) → List ℕ
joined [] = []
joined (p ∷ ps) = p ++ joined ps

write-nil : (re : Patterns) (at : ℕ) (o : Observer) → NoNewline o.remainder → write re at [] o ≡ o
unfolding write
write-nil re at o h =
    let same =
      ap (λ xs. scan re at xs ([], o.trackers)) (append-nil o.remainder)
      ∙ scan-NoNewline re at o.remainder [] o.trackers h in
    record_eq (ap (λ (x : List ℕ × Trackers). x.1) same) (append-nil o.buf)
      (ap (λ (x : List ℕ × Trackers). x.0) same)

-- However the output of a process is cut into writes, lines cut in the middle included, the
-- trackers, the collected output and the partial last line are those of one write of all of it at
-- the same time; the observer starts with no newline in its partial line.
pub write_all-joined :
    (re : Patterns) (at : ℕ) (ps : List (List ℕ)) (o : Observer)
    → NoNewline o.remainder
    → write_all re at ps o ≡ write re at (joined ps) o
unfolding write_all joined
write_all-joined re at [] o h = sym (write-nil re at o h)
write_all-joined re at (p ∷ ps) o h =
    write_all-joined re at ps (write re at p o) (write-remainder re at p o)
    ∙ sym (write-append re at p (joined ps) o)
