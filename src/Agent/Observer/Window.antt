-- ===== src/Agent/Observer/Window.antt =====
-- The ring of the live log tail is the end of what was observed.
use mathlib.Core.List.{append-nil, append_assoc}
use encode_system.Prelude.{
  ℕ, zero, suc, ◌-◌, ◌≤◌, ◌<◌, ◌≡◌, refl, sym, ap, ◌∙◌, String, List, [], ◌∷◌, ◌++◌, Option, none,
  some, leb, length, drop, length-drop, length-append, arith, Bool-cases, inl, inr,
}
use encode_system.Agent.Observer.{
  Patterns, Progress, push_line, observe_progress, with_marker, with_pct, new_progress_tracker,
}

drop-nil : (k : ℕ) → drop {A = List ℕ} k [] ≡ []
drop-nil zero = refl
drop-nil (suc k) = refl

-- the last `cap` items
abbrev pub last_of : {A : Type 0} → ℕ → List A → List A
last_of cap xs = drop (length xs - cap) xs

drop-append_le :
    {A : Type 0} (k : ℕ) (xs ys : List A) → k ≤ length xs → drop k (xs ++ ys) ≡ drop k xs ++ ys
drop-append_le zero xs ys h = refl
drop-append_le (suc k) [] ys h = ground arith
drop-append_le (suc k) (x ∷ xs) ys h = drop-append_le k xs ys (omega arith)

drop-suc : {A : Type 0} (k : ℕ) (xs : List A) → drop 1 (drop k xs) ≡ drop (suc k) xs
drop-suc zero xs = refl
drop-suc (suc k) [] = refl
drop-suc (suc k) (x ∷ xs) = drop-suc k xs

-- one push moves the window by one line
push_line-last_of :
    (cap : ℕ) (line : List ℕ) (lines : List (List ℕ))
    → 0 < cap
    → push_line cap line (last_of cap lines) ≡ last_of cap (lines ++ line ∷ [])
unfolding push_line
push_line-last_of cap line lines h =
    let n = length lines - cap in
    let size = length-drop n lines in
    let longer = length-append lines (line ∷ []) in
    elim (Bool-cases (leb cap (length (drop n lines)))) [
      | inl full ↦
          let k : length (lines ++ line ∷ []) - cap ≡ suc n = ground (arith, full) in
          rw full (
            ap (λ xs. xs ++ line ∷ []) (drop-suc n lines)
            ∙ sym (drop-append_le (suc n) lines (line ∷ []) (ground (arith, full)))
            ∙ ap (λ m. drop m (lines ++ line ∷ [])) (sym k))
      | inr room ↦
          let k : length (lines ++ line ∷ []) - cap ≡ n = ground (arith, room) in
          rw room (
            sym (drop-append_le n lines (line ∷ []) (omega arith))
            ∙ ap (λ m. drop m (lines ++ line ∷ [])) (sym k))
    ]

unfoldable pub observe_all : Patterns → List (List ℕ) → Progress → Progress
observe_all re [] p = p
observe_all re (line ∷ lines) p = observe_all re lines (observe_progress re line p)

-- a marker changes neither the ring nor its size
with_marker_lem :
    (re : Patterns) (p : Progress) (m : Option (String × String))
    → ((with_marker re p m).ring ≡ p.ring) × ((with_marker re p m).cap_n ≡ p.cap_n)
with_marker_lem re p none = (refl, refl)
with_marker_lem re p (some (name, pct)) = settle (re.parse_float pct)
  where
    settle :
        (o : Option ℕ)
        → ((with_pct (record p { step = name }) o).ring ≡ p.ring)
          × ((with_pct (record p { step = name }) o).cap_n ≡ p.cap_n)
    settle none = (refl, refl)
    settle (some v) = (refl, refl)

observe_progress-ring :
    (re : Patterns) (line : List ℕ) (p : Progress)
    → ((observe_progress re line p).ring ≡ push_line p.cap_n line p.ring)
      × ((observe_progress re line p).cap_n ≡ p.cap_n)
unfolding observe_progress
observe_progress-ring re line p =
    with_marker_lem re (record p { ring = push_line p.cap_n line p.ring }) (re.step_line line)

observe_all-ring :
    (re : Patterns) (lines before : List (List ℕ)) (cap : ℕ) (p : Progress)
    → 0 < cap
    → p.cap_n ≡ cap
    → p.ring ≡ last_of cap before
    → (observe_all re lines p).ring ≡ last_of cap (before ++ lines)
unfolding observe_all
observe_all-ring re [] before cap p h c e = e ∙ ap (last_of cap) (sym (append-nil before))
observe_all-ring re (line ∷ lines) before cap p h c e =
    let (ring, same) = observe_progress-ring re line p in
    observe_all-ring re lines (before ++ line ∷ []) cap (observe_progress re line p) h (same ∙ c) (
      ring
      ∙ ap (λ k. push_line k line p.ring) c
      ∙ ap (push_line cap line) e
      ∙ push_line-last_of cap line before h)
    ∙ ap (last_of cap) (append_assoc before (line ∷ []) lines)

new_cap : (cap_lines : ℕ) → 0 < (new_progress_tracker cap_lines).cap_n
unfolding new_progress_tracker
new_cap cap_lines = ground arith

new_ring :
    (cap_lines : ℕ)
    → (new_progress_tracker cap_lines).ring ≡ last_of (new_progress_tracker cap_lines).cap_n []
unfolding new_progress_tracker
new_ring cap_lines = sym (drop-nil (0 - (new_progress_tracker cap_lines).cap_n))

-- After any lines, the live tail of a new tracker is exactly the last lines, as many as its size (40 where
-- 0 is asked for): none is missing, repeated or out of order, and the ring never grows beyond it.
pub observe_all-new_progress_tracker :
    (re : Patterns) (cap_lines : ℕ) (lines : List (List ℕ))
    → ((observe_all re lines (new_progress_tracker cap_lines)).ring
        ≡ last_of (new_progress_tracker cap_lines).cap_n lines)
      × (length (observe_all re lines (new_progress_tracker cap_lines)).ring
          ≤ (new_progress_tracker cap_lines).cap_n)
observe_all-new_progress_tracker re cap_lines lines =
    let cap = (new_progress_tracker cap_lines).cap_n in
    let e =
      observe_all-ring re lines [] cap (new_progress_tracker cap_lines) (new_cap cap_lines) refl
        (new_ring cap_lines) in
    (e, omega (arith, ap length e, length-drop (length lines - cap) lines))
