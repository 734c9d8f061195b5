-- ===== src/Notify/Batches.antt =====
-- What the digests report of the buffered outcomes (backend/internal/notify/digest.go).
use encode_system.Prelude.{
  ◌++◌, not, ℕ, zero, suc, ◌+◌, ◌-◌, ◌≡◌, ◌⊎◌, inl, inr, refl, sym, ap, List, [], ◌∷◌, Bool, true,
  false, Option, none, some, arith, leb, length, if◌then◌else◌,
}
use encode_system.Jobs.{is_done}
use encode_system.Table.{count_where}
use encode_system.Notify.{
  digest_max_lines, take, push_entry, DigestEntry, Digest, count_done, count_failed, line_first,
  digest_lines, digest_of, flush_digest, flush_digest_tick,
}

-- how many entries a digest of so many has no line for
abbrev pub left_over : ℕ → Option ℕ
left_over n = if leb n digest_max_lines then none else some (n - digest_max_lines)

take-nil : (n : ℕ) → take {A = DigestEntry} n [] ≡ []
take-nil zero = refl
take-nil (suc n) = refl

-- with `room` lines left
digest_lines-take :
    (room total k : ℕ) (es : List DigestEntry)
    → total ≡ length es + k
    → room + k ≡ digest_max_lines
    → digest_lines total k es ≡ (take room es, left_over total)
unfolding digest_lines
digest_lines-take room total k [] h r =
    let none_left : leb total digest_max_lines ≡ true = ground (arith, h, r) in
    rw none_left (ap (λ z. (z, none)) (sym (take-nil room)))
digest_lines-take zero total k (e ∷ es) h r =
    let full : leb digest_max_lines k ≡ true = ground (arith, r) in
    let more : leb total digest_max_lines ≡ false = ground (arith, h, r) in
    let rest : total - k ≡ total - digest_max_lines = omega (arith, r) in
    rw full (rw more (ap (λ z. ([], some z)) rest))
digest_lines-take (suc room) total k (e ∷ es) h r =
    let more : leb digest_max_lines k ≡ false = ground (arith, r) in
    rw more (
      ap (line_first e)
        (digest_lines-take room total (k + 1) es (omega (arith, h)) (omega (arith, r))))

abbrev pub entry_done : DigestEntry → Bool
entry_done e = is_done e.status

abbrev pub entry_not_done : DigestEntry → Bool
entry_not_done e = not (is_done e.status)

-- The digest of entries: those that are done and those that are not, the first 20 in their order as lines,
-- and how many others there are, if there are any.
abbrev pub Reports : List DigestEntry → Digest → Type 0
Reports es d =
    (d.done_count ≡ count_where entry_done es)
    × (d.failed_count ≡ count_where entry_not_done es)
    × (d.shown ≡ take digest_max_lines es)
    × (d.remaining ≡ left_over (length es))

count_done-where : (es : List DigestEntry) → count_done es ≡ count_where entry_done es
unfolding count_done count_where
count_done-where [] = refl
count_done-where (e ∷ es) = ground (arith, count_done-where es)

count_failed-where : (es : List DigestEntry) → count_failed es ≡ count_where entry_not_done es
unfolding count_failed count_where
count_failed-where [] = refl
count_failed-where (e ∷ es) = ground (arith, count_failed-where es)

digest_of-Reports : (es : List DigestEntry) → Reports es (digest_of es)
unfolding digest_of
digest_of-Reports es =
    let lines = digest_lines-take digest_max_lines (length es) 0 es (omega arith) refl in
    (count_done-where es, count_failed-where es, ap (λ z. z.0) lines, ap (λ z. z.1) lines)

-- A tick with the digest off leaves the buffer and posts nothing; any other empties it, and posts nothing
-- when the buffer was empty or there is no webhook, and else one digest, which counts the entries that are
-- done and those that are not, has the first 20 entries in their order, and says how many others there were.
pub flush_digest_tick-Reports :
    (on muted : Bool) (buffer : List DigestEntry)
    → ((on ≡ false) × (flush_digest_tick on muted buffer ≡ (buffer, none)))
      ⊎ ((on ≡ true)
          × ((muted ≡ true) ⊎ (buffer ≡ []))
          × (flush_digest_tick on muted buffer ≡ ([], none)))
      ⊎ ((d : Digest) × (flush_digest_tick on muted buffer ≡ ([], some d)) × Reports buffer d)
unfolding flush_digest_tick flush_digest
flush_digest_tick-Reports false muted buffer = inl (refl, refl)
flush_digest_tick-Reports true muted [] = inr (inl (refl, inr refl, refl))
flush_digest_tick-Reports true true (e ∷ es) = inr (inl (refl, inl refl, refl))
flush_digest_tick-Reports true false (e ∷ es) =
    inr (inr (digest_of (e ∷ es), refl, digest_of-Reports (e ∷ es)))

-- what the handlers and the loop do with the buffer
pub data DigestEvent : Type 0 where
  pushed : DigestEntry → DigestEvent
  ticked : Bool → DigestEvent

abbrev then_digests :
    (List DigestEntry → List DigestEntry × List Digest)
    → List DigestEntry × Option Digest
    → List DigestEntry × List Digest
then_digests next (buffer, none) = next buffer
then_digests next (buffer, some d) = ((next buffer).0, d ∷ (next buffer).1)

-- the buffer and the digests after events, with a webhook
unfoldable pub run_digest : List DigestEvent → List DigestEntry → List DigestEntry × List Digest
run_digest [] buffer = (buffer, [])
run_digest (pushed e ∷ es) buffer = run_digest es (push_entry e buffer)
run_digest (ticked on ∷ es) buffer =
    then_digests (run_digest es) (flush_digest_tick on false buffer)

-- the outcomes that are pushed, in their order
unfoldable pub pushed_entries : List DigestEvent → List DigestEntry
pushed_entries [] = []
pushed_entries (pushed e ∷ es) = e ∷ pushed_entries es
pushed_entries (ticked on ∷ es) = pushed_entries es

-- batch after batch, and then the rest
unfoldable pub chained : List (List DigestEntry) → List DigestEntry → List DigestEntry
chained [] rest = rest
chained (b ∷ bs) rest = b ++ chained bs rest

-- a digest for each batch, of that batch
abbrev pub AllReport : List (List DigestEntry) → List Digest → Type 0
AllReport [] [] = Unit {0}
AllReport (b ∷ bs) (d ∷ ds) = Reports b d × AllReport bs ds
AllReport _ _ = ⊥

-- The batches and the rest, one after the other, are all the entries, and each batch has its digest.
abbrev pub Batched :
    List DigestEntry → List (List DigestEntry) → List DigestEntry × List Digest → Type 0
Batched all batches (rest, digests) = (chained batches rest ≡ all) × AllReport batches digests
