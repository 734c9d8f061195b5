-- ===== src/Agent/Ring/Bounds.antt =====
-- The bounds of the agent's log ring.
use encode_system.Prelude.{
  ℕ, ◌-◌, ◌≤◌, List, [], ◌∷◌, ◌++◌, ◌==◌, leb, leb→le, length, length-drop, arith, Bool-cases, inl,
  inr,
}
use encode_system.FullLog.{newline}
use encode_system.FullLog.Bounds.{tail_on_line_bounded}
use encode_system.Agent.Registry.{join_lines}
use encode_system.Agent.Ring.{
  log_ring_lines, log_ring_bytes, LogRing, new_log_ring, last_items, push_locked, push_nonempty,
  take_byte, take_bytes, capped, write_ring, all_lines, ring_tail, trim_right,
}

last_items_le : {A : Type 0} (cap : ℕ) (xs : List A) → length (last_items cap xs) ≤ cap
last_items_le cap xs = elim (Bool-cases (leb (length xs) cap)) [
  | inl e ↦ rw e (leb→le _ _ e)
  | inr e ↦ rw e (omega (arith, length-drop (length xs - cap) xs))
]

push_nonempty_le :
    (line : List ℕ) (lines : List (List ℕ))
    → length lines ≤ log_ring_lines
    → length (push_nonempty line lines) ≤ log_ring_lines
unfolding push_locked
push_nonempty_le [] lines h = h
push_nonempty_le (c ∷ cs) lines h = last_items_le log_ring_lines (lines ++ (c ∷ cs) ∷ [])

take_byte_le :
    (c : ℕ) (line : List ℕ) (lines : List (List ℕ))
    → length lines ≤ log_ring_lines
    → length (take_byte c (line, lines)).1 ≤ log_ring_lines
unfolding take_byte
take_byte_le c line lines h = elim (Bool-cases (c == newline)) [
  | inl e ↦ rw e (push_nonempty_le (trim_right line) lines h)
  | inr e ↦ rw e h
]

take_bytes_le :
    (cs : List ℕ) (st : List ℕ × List (List ℕ))
    → length st.1 ≤ log_ring_lines
    → length (take_bytes cs st).1 ≤ log_ring_lines
unfolding take_bytes
take_bytes_le [] st h = h
take_bytes_le (c ∷ cs) (line, lines) h =
    take_bytes_le cs (take_byte c (line, lines)) (take_byte_le c line lines h)

-- the writes to a ring, in turn
unfoldable pub write_rings : List (List ℕ) → LogRing → LogRing
write_rings [] r = r
write_rings (p ∷ ps) r = write_rings ps (write_ring p r)

write_rings-Bounded :
    (ps : List (List ℕ)) (r : LogRing)
    → length r.lines ≤ log_ring_lines
    → length r.pending ≤ log_ring_bytes
    → (length (write_rings ps r).lines ≤ log_ring_lines)
      × (length (write_rings ps r).pending ≤ log_ring_bytes)
unfolding write_rings write_ring
write_rings-Bounded [] r h k = (h, k)
write_rings-Bounded (p ∷ ps) r h k =
    let st = take_bytes (r.pending ++ p) ([], r.lines) in
    write_rings-Bounded ps (capped st) (take_bytes_le (r.pending ++ p) ([], r.lines) h)
      (last_items_le log_ring_bytes st.0)

-- Whatever is written to a new ring, in whatever pieces: it holds at most 40 lines and 8192 bytes of an
-- unfinished one, and its tail for the heartbeat is at most 8192 bytes.
pub write_rings_bounded :
    (ps : List (List ℕ))
    → (length (write_rings ps new_log_ring).lines ≤ log_ring_lines)
      × (length (write_rings ps new_log_ring).pending ≤ log_ring_bytes)
      × (length (ring_tail (write_rings ps new_log_ring)) ≤ log_ring_bytes)
unfolding ring_tail
write_rings_bounded ps =
    let r = write_rings ps new_log_ring in
    let (a, b) = write_rings-Bounded ps new_log_ring (omega arith) (omega arith) in
    let (_, c) = tail_on_line_bounded log_ring_bytes (join_lines (all_lines r r.pending)) in
    (a, b, c)
