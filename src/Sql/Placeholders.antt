-- ===== src/Sql/Placeholders.antt =====
-- What rebindPostgres does to the placeholders of a query (backend/internal/store/dialect.go).
use mathlib.Core.List.{append_assoc}
use encode_system.Prelude.{
  ℕ, zero, suc, ◌+◌, ◌-◌, ◌*◌, ◌/◌, ◌%◌, ◌<◌, ◌≡◌, refl, ap, ◌∙◌, inl, inr, List, [], ◌∷◌, ◌++◌,
  Bool, true, false, not, ◌&&◌, ◌==◌, leb, ltb, if◌then◌else◌, arith, Bool-cases,
}
use encode_system.Sql.{
  quote_byte, mark_byte, dollar_byte, decimal_bytes, rebind_from, rebind_postgres,
}

-- A query with its placeholders told apart from its other bytes.
pub data Piece : Type 0 where
  byte : ℕ → Piece
  placeholder : Piece

-- SQL's own rule: every quote opens or closes a literal, and two of them in a literal do both.
unfoldable pub pieces : Bool → List ℕ → List Piece
pieces in_quote [] = []
pieces true (c ∷ s) = byte c ∷ pieces (not (c == quote_byte)) s
pieces false (c ∷ s) = (if c == mark_byte then placeholder else byte c) ∷ pieces (c == quote_byte) s

unfoldable pub print_pieces : ℕ → List Piece → List ℕ
print_pieces n [] = []
print_pieces n (byte c ∷ ps) = c ∷ print_pieces n ps
print_pieces n (placeholder ∷ ps) =
    dollar_byte ∷ decimal_bytes (suc (suc n)) (suc n) ++ print_pieces (suc n) ps

rebind_from-pieces :
    (in_quote : Bool) (n : ℕ) (s : List ℕ)
    → rebind_from in_quote n s ≡ print_pieces n (pieces in_quote s)
unfolding rebind_from pieces print_pieces
rebind_from-pieces true n [] = refl
rebind_from-pieces false n [] = refl
rebind_from-pieces true n (c ∷ []) = refl
rebind_from-pieces true n (c ∷ d ∷ s) =
    let escaped = rebind_from-pieces true n s in
    let closed = rebind_from-pieces false n (d ∷ s) in
    let more = rebind_from-pieces true n (d ∷ s) in
    elim (Bool-cases (c == quote_byte)) [
      | inl e ↦ elim (Bool-cases (d == quote_byte)) [
        | inl f ↦
            let other : (d == mark_byte) ≡ false = ground (arith, f) in
            rw e (rw f (rw other (ap (λ x. c ∷ d ∷ x) escaped)))
        | inr f ↦ rw e (rw f (ap (λ x. c ∷ x) (rw f at closed)))
      ]
      | inr e ↦ rw e (ap (λ x. c ∷ x) more)
    ]
rebind_from-pieces false n (c ∷ s) =
    let opened = rebind_from-pieces true n s in
    let bound = rebind_from-pieces false (suc n) s in
    let more = rebind_from-pieces false n s in
    elim (Bool-cases (c == quote_byte)) [
      | inl e ↦
          let other : (c == mark_byte) ≡ false = ground (arith, e) in
          rw e (rw other (ap (λ x. c ∷ x) opened))
      | inr e ↦ elim (Bool-cases (c == mark_byte)) [
        | inl f ↦
            rw e (rw f (ap (λ x. dollar_byte ∷ decimal_bytes (suc (suc n)) (suc n) ++ x) bound))
        | inr f ↦ rw e (rw f (ap (λ x. c ∷ x) more))
      ]
    ]

-- The rewriting that looks one byte ahead for an escaped quote does what SQL's own rule says: the bytes
-- outside of placeholders stay as they are, and the placeholders are numbered from 1 in their order.
pub rebind_postgres-pieces :
    (sql : List ℕ) → rebind_postgres sql ≡ print_pieces 0 (pieces false sql)
unfolding rebind_postgres
rebind_postgres-pieces sql = rebind_from-pieces false 0 sql

abbrev pub is_digit_byte : ℕ → Bool
is_digit_byte c = leb 48 c && leb c 57

-- What a reader of a query is in: a literal, the number of a parameter, or neither.
pub data ReaderState : Type 0 where
  in_text in_literal : ReaderState
  in_number : ℕ → ReaderState

-- The numbers of the parameters that Postgres reads in a query: $ and digits, outside of literals.
unfoldable pub read_params : ReaderState → List ℕ → List ℕ
read_params in_text [] = []
read_params in_text (c ∷ s) =
    let literal = read_params in_literal s in
    let number = read_params (in_number 0) s in
    let text = read_params in_text s in
    if c == quote_byte then literal else if c == dollar_byte then number else text
read_params in_literal [] = []
read_params in_literal (c ∷ s) =
    let literal = read_params in_literal s in
    let text = read_params in_text s in if c == quote_byte then text else literal
read_params (in_number v) [] = v ∷ []
read_params (in_number v) (c ∷ s) =
    let literal = read_params in_literal s in
    let number = read_params (in_number 0) s in
    let text = read_params in_text s in
    let longer = read_params (in_number (v * 10 + (c - 48))) s in
    if is_digit_byte c
    then longer
    else v ∷ (if c == quote_byte then literal else if c == dollar_byte then number else text)

-- one more digit
read_params-digit :
    (v d w : ℕ) (rest : List ℕ)
    → d < 10
    → v * 10 + d ≡ w
    → read_params (in_number v) ((48 + d) ∷ rest) ≡ read_params (in_number w) rest
unfolding read_params
read_params-digit v d w rest h e =
    let shown : is_digit_byte (48 + d) ≡ true = ground (arith, h) in
    let value : v * 10 + ((48 + d) - 48) ≡ w = omega (arith, e) in
    rw shown (ap (λ z. read_params (in_number z) rest) value)

read_params-decimal_bytes :
    (fuel n : ℕ) (rest : List ℕ)
    → n < fuel
    → read_params (in_number 0) (decimal_bytes fuel n ++ rest) ≡ read_params (in_number n) rest
unfolding read_params decimal_bytes
read_params-decimal_bytes zero n rest h = absurd (omega (arith, h))
read_params-decimal_bytes (suc fuel) n rest h = elim (Bool-cases (ltb n 10)) [
  | inl e ↦ rw e (read_params-digit 0 n n rest (ground (arith, e)) (omega arith))
  | inr e ↦
      let smaller : n / 10 < fuel = ground (arith, e, h) in
      let value : n / 10 * 10 + n % 10 ≡ n = omega arith in
      rw e (
        ap (read_params (in_number 0))
          (append_assoc (decimal_bytes fuel (n / 10)) ((48 + n % 10) ∷ []) rest)
        ∙ read_params-decimal_bytes fuel (n / 10) ((48 + n % 10) ∷ rest) smaller
        ∙ read_params-digit (n / 10) (n % 10) n rest (omega arith) value)
]

-- the text does not go on with a digit
abbrev ends_number : List ℕ → Bool
ends_number [] = true
ends_number (c ∷ s) = not (is_digit_byte c)

-- Outside of its literals a query has no $, and no digit behind a placeholder.
unfoldable pub is_bindable : Bool → List ℕ → Bool
is_bindable in_quote [] = true
is_bindable true (c ∷ s) = is_bindable (not (c == quote_byte)) s
is_bindable false (c ∷ s) =
    not (c == dollar_byte)
    && not (c == mark_byte && not (ends_number s))
    && is_bindable (c == quote_byte) s

unfoldable pub count_placeholders : List Piece → ℕ
count_placeholders [] = 0
count_placeholders (byte c ∷ ps) = count_placeholders ps
count_placeholders (placeholder ∷ ps) = suc (count_placeholders ps)

-- n + 1, …, n + count
abbrev pub count_up : ℕ → ℕ → List ℕ
count_up n zero = []
count_up n (suc count) = suc n ∷ count_up (suc n) count

abbrev reader_of : Bool → ReaderState
reader_of true = in_literal
reader_of false = in_text

read_params-ends :
    (v : ℕ) (s : List ℕ)
    → ends_number s ≡ true
    → read_params (in_number v) s ≡ v ∷ read_params in_text s
unfolding read_params
read_params-ends v [] h = refl
read_params-ends v (c ∷ s) h =
    let other : is_digit_byte c ≡ false = ground (arith, h) in rw other refl

ends_number-print :
    (n : ℕ) (s : List ℕ)
    → ends_number s ≡ true
    → ends_number (print_pieces n (pieces false s)) ≡ true
unfolding print_pieces pieces
ends_number-print n [] h = refl
ends_number-print n (c ∷ s) h = elim (Bool-cases (c == mark_byte)) [
  | inl e ↦ rw e refl
  | inr e ↦ rw e h
]

read_params-pieces :
    (in_quote : Bool) (n : ℕ) (s : List ℕ)
    → is_bindable in_quote s ≡ true
    → read_params (reader_of in_quote) (print_pieces n (pieces in_quote s))
      ≡ count_up n (count_placeholders (pieces in_quote s))
unfolding read_params print_pieces pieces is_bindable count_placeholders
read_params-pieces true n [] h = refl
read_params-pieces false n [] h = refl
read_params-pieces true n (c ∷ s) h = elim (Bool-cases (c == quote_byte)) [
  | inl e ↦ rw e (read_params-pieces false n s (rw e at h))
  | inr e ↦ rw e (read_params-pieces true n s (rw e at h))
]
read_params-pieces false n (c ∷ s) h = elim (Bool-cases (c == quote_byte)) [
  | inl e ↦
      let other : (c == mark_byte) ≡ false = ground (arith, e) in
      let rest : is_bindable true s ≡ true = ground (arith, e, h) in
      rw other (rw e (read_params-pieces true n s rest))
  | inr e ↦
      let dollar : (c == dollar_byte) ≡ false = ground (arith, h) in
      let rest : is_bindable false s ≡ true = ground (arith, e, h) in
      elim (Bool-cases (c == mark_byte)) [
        | inl f ↦
            let ends : ends_number s ≡ true = ground (arith, f, h) in
            rw f (
              rw e (
                read_params-decimal_bytes (suc (suc n)) (suc n)
                  (print_pieces (suc n) (pieces false s)) (omega arith)
                ∙ read_params-ends (suc n) (print_pieces (suc n) (pieces false s))
                    (ends_number-print (suc n) s ends)
                ∙ ap (λ z. suc n ∷ z) (read_params-pieces false (suc n) s rest)))
        | inr f ↦ rw f (rw e (rw dollar (read_params-pieces false n s rest)))
      ]
]

-- The k-th placeholder of a query is bound to its k-th argument: the numbers that Postgres reads in the
-- rewritten query are 1, 2, … in this order, one for each placeholder outside of a literal, when the query
-- has no $ outside of a literal and no digit behind a placeholder.
pub read_params-rebind_postgres :
    (sql : List ℕ)
    → is_bindable false sql ≡ true
    → read_params in_text (rebind_postgres sql) ≡ count_up 0 (count_placeholders (pieces false sql))
read_params-rebind_postgres sql h =
    ap (read_params in_text) (rebind_postgres-pieces sql) ∙ read_params-pieces false 0 sql h
