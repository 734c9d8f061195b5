-- ===== src/FullLog/Twice.antt =====
-- The agent caps a log before it sends it, and the controller caps it again. The second cap, which the
-- marker can push a log over, changes nothing.
use native.Mathlib.Nat.{zero-add, suc-add}
use encode_system.Prelude.{
  ℕ, zero, suc, ◌+◌, ◌-◌, ◌≤◌, ◌<◌, ◌≡◌, refl, sym, ap, ◌∙◌, inl, inr, List, [], ◌∷◌, ◌++◌, some,
  arith, dec_lt, ◌==◌, leb, leb→le, Bool-cases, Option-cases, length, drop, length-append,
  length-drop, if◌then◌else◌,
}
use encode_system.FullLog.{
  newline, after_newline, is_continuation, skip_continuation, truncation_marker, or_whole,
  kept_tail, cap_log, cap_full_log, align_slack, read_window, capture_log, capture_run_log,
  max_full_log_bytes,
}
use encode_system.FullLog.Bounds.{kept_tail_lem, cap_log_bounded}

drop-nil : (m : ℕ) → drop {A = ℕ} m [] ≡ []
drop-nil zero = refl
drop-nil (suc m) = refl

drop-drop : (m n : ℕ) (xs : List ℕ) → drop m (drop n xs) ≡ drop (n + m) xs
drop-drop m zero xs = rw zero-add refl
drop-drop m (suc n) [] = drop-nil m ∙ sym (drop-nil (suc n + m))
drop-drop m (suc n) (x ∷ xs) = rw suc-add (drop-drop m n xs)

-- any cut inside the marker leads to the end of its line
marker_cut :
    (k : ℕ) (body : List ℕ)
    → k < 18
    → after_newline (skip_continuation (drop k truncation_marker ++ body)) ≡ some body
unfolding after_newline skip_continuation
marker_cut zero body h = refl
marker_cut (suc zero) body h = refl
marker_cut (suc (suc zero)) body h = refl
marker_cut (suc (suc (suc zero))) body h = refl
marker_cut (suc (suc (suc (suc zero)))) body h = refl
marker_cut (suc (suc (suc (suc (suc zero))))) body h = refl
marker_cut (suc (suc (suc (suc (suc (suc zero)))))) body h = refl
marker_cut (suc (suc (suc (suc (suc (suc (suc zero))))))) body h = refl
marker_cut (suc (suc (suc (suc (suc (suc (suc (suc zero)))))))) body h = refl
marker_cut (suc (suc (suc (suc (suc (suc (suc (suc (suc zero))))))))) body h = refl
marker_cut (suc (suc (suc (suc (suc (suc (suc (suc (suc (suc zero)))))))))) body h = refl
marker_cut (suc (suc (suc (suc (suc (suc (suc (suc (suc (suc (suc zero))))))))))) body h = refl
marker_cut (suc (suc (suc (suc (suc (suc (suc (suc (suc (suc (suc (suc zero)))))))))))) body h =
    refl
marker_cut (suc (suc (suc (suc (suc (suc (suc (suc (suc (suc (suc (suc (suc zero))))))))))))) body
      h =
    refl
marker_cut (suc (suc (suc (suc (suc (suc (suc (suc (suc (suc (suc (suc (suc (suc zero))))))))))))))
      body h =
    refl
marker_cut
      (suc (suc (suc (suc (suc (suc (suc (suc (suc (suc (suc (suc (suc (suc (suc zero)))))))))))))))
      body h =
    refl
marker_cut
      (suc (
        suc
          (suc (suc (suc (suc (suc (suc (suc (suc (suc (suc (suc (suc (suc (suc zero))))))))))))))))
      body h =
    refl
marker_cut
      (suc (
        suc (
          suc (
            suc
              (suc (suc (suc (suc (suc (suc (suc (suc (suc (suc (suc (suc (suc zero)))))))))))))))))
      body h =
    refl
marker_cut
      (suc (
        suc (
          suc (
            suc (
              suc
                (suc (suc (suc (suc (suc (suc (suc (suc (suc (suc (suc (suc (suc k))))))))))))))))))
      body h =
    ground arith

drop-append : (k : ℕ) (xs ys : List ℕ) → k ≤ length xs → drop k (xs ++ ys) ≡ drop k xs ++ ys
drop-append zero xs ys h = refl
drop-append (suc k) [] ys h = ground arith
drop-append (suc k) (x ∷ xs) ys h = drop-append k xs ys (omega arith)

cut_lem :
    (log rest : List ℕ) (cap : ℕ)
    → after_newline (skip_continuation (drop (length log - cap) log)) ≡ some rest
    → kept_tail cap log ≡ rest
unfolding kept_tail
cut_lem log rest cap h = rw h refl

skip_continuation_idem :
    (xs : List ℕ) → skip_continuation (skip_continuation xs) ≡ skip_continuation xs
unfolding skip_continuation
skip_continuation_idem [] = refl
skip_continuation_idem (x ∷ xs) = elim (Bool-cases (is_continuation x)) [
  | inl e ↦ rw e (skip_continuation_idem xs)
  | inr e ↦ rw e (rw e refl)
]

skip_continuation_le : (xs : List ℕ) → length (skip_continuation xs) ≤ length xs
unfolding skip_continuation
skip_continuation_le [] = omega arith
skip_continuation_le (x ∷ xs) = elim (Bool-cases (is_continuation x)) [
  | inl e ↦ rw e (omega (arith, skip_continuation_le xs))
  | inr e ↦ rw e (omega arith)
]

after_newline_lt :
    (xs : List ℕ) {rest : List ℕ} → after_newline xs ≡ some rest → length rest < length xs
unfolding after_newline
after_newline_lt [] h = cc
after_newline_lt (x ∷ xs) h = elim (Bool-cases (x == newline)) [
  | inl e ↦ ground arith
  | inr e ↦ omega (arith, after_newline_lt xs (rw e at h))
]

-- a kept body of the whole cap has lost nothing: it holds no newline and starts on a rune
kept_tail_full :
    (cap : ℕ) (log : List ℕ)
    → length (kept_tail cap log) ≡ cap
    → or_whole
        (skip_continuation (kept_tail cap log))
        (after_newline (skip_continuation (kept_tail cap log)))
      ≡ kept_tail cap log
unfolding kept_tail
kept_tail_full cap log full =
    let tail = drop (length log - cap) log in
    let short = length-drop (length log - cap) log in
    elim (Option-cases (after_newline (skip_continuation tail))) [
      | inl e ↦ rw e (rw skip_continuation_idem (rw e refl))
      | inr (rest, e) ↦
          let same : length rest ≡ cap =
            ap (λ o. length (or_whole (skip_continuation tail) o)) (sym e) ∙ full in
          ground (arith, after_newline_lt (skip_continuation tail) e, skip_continuation_le tail)
    ]

whole_cut :
    (cap : ℕ) (log tail : List ℕ)
    → drop (length log - cap) log ≡ tail
    → kept_tail cap log ≡ or_whole (skip_continuation tail) (after_newline (skip_continuation tail))
unfolding kept_tail
whole_cut cap log tail e =
    ap (λ t. or_whole (skip_continuation t) (after_newline (skip_continuation t))) e

kept_tail-marked :
    (cap : ℕ) (log : List ℕ)
    → cap < length (truncation_marker ++ kept_tail cap log)
    → kept_tail cap (truncation_marker ++ kept_tail cap log) ≡ kept_tail cap log
kept_tail-marked cap log long =
    let body = kept_tail cap log in
    let (_, short) = kept_tail_lem cap log in
    let size : length (truncation_marker ++ body) ≡ 18 + length body =
      length-append truncation_marker body in
    let k = length (truncation_marker ++ body) - cap in
    elim (dec_lt k 18) [
      | yes less ↦ cut_lem _ body cap (
          ap (λ t. after_newline (skip_continuation t))
            (drop-append k truncation_marker body (omega arith))
          ∙ marker_cut k body less)
      | no over ↦
          let all : k ≡ 18 = omega arith in
          whole_cut cap (truncation_marker ++ body) body
            (ap (λ n. drop n (truncation_marker ++ body)) all)
          ∙ kept_tail_full cap log (omega arith)
    ]

cap_log-long :
    (cap : ℕ) (log : List ℕ)
    → cap < length log
    → cap_log cap log ≡ truncation_marker ++ kept_tail cap log
unfolding cap_log
cap_log-long cap log long = elim (Bool-cases (leb (length log) cap)) [
  | inl e ↦ ground (arith, leb→le _ _ e)
  | inr e ↦ rw e refl
]

recut :
    (cap : ℕ) (log : List ℕ)
    → cap_log cap (truncation_marker ++ kept_tail cap log) ≡ truncation_marker ++ kept_tail cap log
unfolding cap_log
recut cap log = elim (Bool-cases (leb (length (truncation_marker ++ kept_tail cap log)) cap)) [
  | inl e ↦ rw e refl
  | inr e ↦ rw e (ap (λ t. truncation_marker ++ t) (kept_tail-marked cap log (ground arith)))
]

-- Capping a log twice is capping it once, at any cap, although the marker can put a log that was
-- cut over the cap.
pub cap_log_idem : (cap : ℕ) (log : List ℕ) → cap_log cap (cap_log cap log) ≡ cap_log cap log
cap_log_idem cap log = elim (cap_log_bounded cap log) [
  | inl (short, e) ↦ ap (cap_log cap) e
  | inr (long, _) ↦
      ap (cap_log cap) (cap_log-long cap log long) ∙ recut cap log ∙ sym (cap_log-long cap log long)
]

kept_tail-read_window :
    (cap : ℕ) (file : List ℕ) → kept_tail cap (read_window cap file) ≡ kept_tail cap file
unfolding kept_tail read_window
kept_tail-read_window cap file =
    let cut = length file - cap - align_slack in
    let window = drop cut file in
    let same : drop (length window - cap) window ≡ drop (length file - cap) file =
      drop-drop (length window - cap) cut file
      ∙ ap (λ n. drop n file) (omega (arith, length-drop cut file)) in
    ap (λ t. or_whole (skip_continuation t) (after_newline (skip_continuation t))) same

-- Reading only the end of a large log file gives what capping the whole file would: the agent's capture
-- of a run log is the store's cap, and so the controller stores it unchanged.
pub capture_run_log-cap_full_log :
    (file : List ℕ)
    → (capture_run_log file ≡ cap_full_log file)
      × (cap_full_log (capture_run_log file) ≡ capture_run_log file)
unfolding capture_run_log cap_full_log capture_log cap_log
capture_run_log-cap_full_log file =
    let cap = max_full_log_bytes in
    let same : capture_log cap file ≡ cap_log cap file =
      ap (λ t. if leb (length file) cap then file else truncation_marker ++ t)
        (kept_tail-read_window cap file) in
    (same, ap (cap_log cap) same ∙ cap_log_idem cap file ∙ sym same)
