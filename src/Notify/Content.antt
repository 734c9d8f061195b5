-- ===== src/Notify/Content.antt =====
-- The length of an alert and whether its link survives (backend/internal/notify/notify.go).
use mathlib.Core.List.{append_assoc}
use encode_system.Prelude.{
  ℕ, zero, suc, ◌+◌, ◌-◌, ◌≤◌, ◌<◌, ◌≡◌, ◌⊎◌, inl, inr, refl, ap, ◌∙◌, List, [], ◌∷◌, ◌++◌, true,
  false, some, arith, ◌==◌, ltb, leb, Bool-cases, length, length-append, if◌then◌else◌,
}
use encode_system.Notify.{
  discord_cap, ellipsis, newline_byte, one_line, take, truncate, recapped, job_finished_content,
}

length-one_line : (s : List ℕ) → length (one_line s) ≡ length s
unfolding one_line
length-one_line [] = refl
length-one_line (c ∷ s) = omega (arith, length-one_line s)

length-take : (n : ℕ) (s : List ℕ) → n ≤ length s → length (take n s) ≡ n
length-take zero s h = refl
length-take (suc n) [] h = omega (arith, h)
length-take (suc n) (c ∷ s) h = omega (arith, length-take n s (omega (arith, h)))

-- a text that fits is only put on one line; another is cut and gets the three bytes of the ellipsis
truncate-cases :
    (s : List ℕ) (n : ℕ)
    → ((length s ≤ n) × (truncate s n ≡ one_line s))
      ⊎ ((n < length s)
          × (truncate s n ≡ take n (one_line s) ++ ellipsis)
          × (length (truncate s n) ≡ n + 3))
unfolding truncate
truncate-cases s n = elim (Bool-cases (leb (length (one_line s)) n)) [
  | inl e ↦ inl (ground (arith, e, length-one_line s), rw e refl)
  | inr e ↦
      let longer : n < length (one_line s) = ground (arith, e) in
      inr (
        omega (arith, longer, length-one_line s),
        rw e refl,
        rw e (
            omega (
              arith,
              length-append (take n (one_line s)) ellipsis,
              length-take n (one_line s) (omega (arith, longer)),
            )),
      )
]

one_line-append : (s t : List ℕ) → one_line (s ++ t) ≡ one_line s ++ one_line t
unfolding one_line
one_line-append [] t = refl
one_line-append (c ∷ s) t =
    ap (λ z. (if c == newline_byte then 32 else c) ∷ z) (one_line-append s t)

one_line_twice : (s : List ℕ) → one_line (one_line s) ≡ one_line s
unfolding one_line
one_line_twice [] = refl
one_line_twice (c ∷ s) = elim (Bool-cases (c == newline_byte)) [
  | inl e ↦ rw e (ap (λ z. 32 ∷ z) (one_line_twice s))
  | inr e ↦ rw e (rw e (ap (λ z. c ∷ z) (one_line_twice s)))
]

one_line-take : (n : ℕ) (s : List ℕ) → one_line (take n s) ≡ take n (one_line s)
unfolding one_line
one_line-take zero s = refl
one_line-take (suc n) [] = refl
one_line-take (suc n) (c ∷ s) =
    ap (λ z. (if c == newline_byte then 32 else c) ∷ z) (one_line-take n s)

take-append : (xs ys : List ℕ) (n k : ℕ) → n ≡ k + length xs → take n (xs ++ ys) ≡ xs ++ take k ys
take-append [] ys n k h = ap (λ z. take z ys) ((omega (arith, h)))
take-append (x ∷ xs) ys zero k h = absurd (omega (arith, h))
take-append (x ∷ xs) ys (suc n) k h = ap (λ z. x ∷ z) (take-append xs ys n k (omega (arith, h)))

-- the front of a cut body
abbrev pub cut_body : List ℕ → ℕ → List ℕ
cut_body body n = take n (one_line body) ++ ellipsis

one_line-cut_body : (body : List ℕ) (n : ℕ) → one_line (cut_body body n) ≡ cut_body body n
unfolding one_line
one_line-cut_body body n =
    one_line-append (take n (one_line body)) ellipsis
    ∙ ap (λ z. z ++ ellipsis) (one_line-take n (one_line body) ∙ ap (take n) (one_line_twice body))

length-cut_body : (body : List ℕ) (n : ℕ) → n ≤ length body → length (cut_body body n) ≡ n + 3
length-cut_body body n h = omega (
  arith,
  length-append (take n (one_line body)) ellipsis,
  length-take n (one_line body) (omega (arith, h, length-one_line body)),
)

-- the second cut of a message whose body was cut
recapped-cut :
    (body link : List ℕ) (n : ℕ)
    → n ≤ length body
    → n + length link + 1 ≡ discord_cap
    → 3 ≤ length link
    → recapped (cut_body body n ++ newline_byte ∷ link)
      ≡ cut_body body n ++ 32 ∷ (take (length link - 3) (one_line link) ++ ellipsis)
unfolding truncate one_line
recapped-cut body link n h e three =
    let long : length (cut_body body n ++ newline_byte ∷ link) ≡ discord_cap + 3 =
      omega (
        arith,
        length-append (cut_body body n) (newline_byte ∷ link),
        length-cut_body body n h,
        e,
      ) in
    let over : ltb discord_cap (length (cut_body body n ++ newline_byte ∷ link)) ≡ true =
      ground (arith, long) in
    let wide : leb (length (one_line (cut_body body n ++ newline_byte ∷ link))) discord_cap
        ≡ false =
      ground (arith, long, length-one_line (cut_body body n ++ newline_byte ∷ link)) in
    let spaced : one_line (cut_body body n ++ newline_byte ∷ link)
        ≡ cut_body body n ++ 32 ∷ one_line link =
      one_line-append (cut_body body n) (newline_byte ∷ link)
      ∙ ap (λ z. z ++ 32 ∷ one_line link) (one_line-cut_body body n) in
    let room : discord_cap ≡ suc (length link - 3) + length (cut_body body n) =
      omega (arith, length-cut_body body n h, e, three) in
    rw over (
      rw wide (
        ap (λ z. take discord_cap z ++ ellipsis) spaced
        ∙ ap (λ z. z ++ ellipsis)
            (take-append (cut_body body n) (32 ∷ one_line link) discord_cap (suc (length link - 3))
              room)
        ∙ append_assoc (cut_body body n) (32 ∷ take (length link - 3) (one_line link)) ellipsis))

-- What is posted for a body and a link of at least three bytes that leaves room for itself: when both fit
-- under the cap of 2000 bytes with the line break between them, the body on one line and then the link on a
-- line of its own; otherwise the body is cut, and the link follows behind a space and without its last three
-- bytes, with an ellipsis in their place, so that it does not survive.
pub job_finished_content-linked :
    (body link : List ℕ)
    → 3 ≤ length link
    → length link < discord_cap
    → ((length body + length link + 1 ≤ discord_cap)
        × (job_finished_content body link ≡ some (one_line body ++ newline_byte ∷ link)))
      ⊎ ((discord_cap < length body + length link + 1)
          × (job_finished_content body link
              ≡ some (
                  cut_body body (discord_cap - length link - 1)
                  ++ 32 ∷ (take (length link - 3) (one_line link) ++ ellipsis))))
unfolding job_finished_content
job_finished_content-linked body [] three h = absurd (omega (arith, three))
job_finished_content-linked body (c ∷ link) three h =
    let room : ltb discord_cap (length (c ∷ link) + 1) ≡ false = ground (arith, h) in
    elim (truncate-cases body (discord_cap - length (c ∷ link) - 1)) [
      | inl (fits, e) ↦
          let small : ltb discord_cap (length (one_line body ++ newline_byte ∷ c ∷ link)) ≡ false =
            ground (
              arith,
              fits,
              h,
              length-one_line body,
              length-append (one_line body) (newline_byte ∷ c ∷ link),
            ) in
          inl (omega (arith, fits, h), rw room (rw e (rw small refl)))
      | inr (long, e, _) ↦ inr (
        omega (arith, long, h),
        rw room (
            rw e (
              ap some (
                recapped-cut body (c ∷ link) (discord_cap - length (c ∷ link) - 1)
                  (omega (arith, long)) (omega (arith, h)) three))),
      )
    ]
