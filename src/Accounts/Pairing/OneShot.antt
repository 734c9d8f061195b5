-- ===== src/Accounts/Pairing/OneShot.antt =====
-- A pairing code is good for one node (handleAgentPair of backend/internal/api/handlers_templates.go).
use encode_system.Prelude.{
  ℕ, ◌+◌, ◌≤◌, ◌≡◌, ◌⊎◌, inl, inr, refl, ap, ◌∙◌, String, List, [], ◌∷◌, ◌++◌, Bool, false, not,
  ◌||◌, Option, none, some, arith, ◌==◌, ltb, ◌=s=◌, if◌then◌else◌, Bool-cases, if_both, ==-refl,
}
use Prim.Native.String.{len}
use text.Mathlib.TextPositions.{eq_refl}
use encode_system.Prelude.Results.{Result, ok, err, guard_passed, or_err_passed}
use encode_system.Table.{select_one, count_where, update_where}
use encode_system.Table.Rows.{changed, select_one-update, select_one-append_new}
use encode_system.Table.Deletes.{count_mono}
use encode_system.Accounts.Pairing.{
  PairingCode, NodeKey, Registry, PairError, bad_request, unauthorized, conflict, internal,
  CodeError, used, code_state, peek_pairing_code, consume_pairing_code, create_node,
  node_by_token_hash, PairReply, registered_node, admitted, handle_agent_pair,
}

abbrev with_code : String → PairingCode → Bool
with_code hash p = p.code_hash =s= hash

abbrev use_by : ℕ → PairingCode → PairingCode
use_by node q = record q { used_by = node }

-- the registry after a code is consumed
abbrev after_use : PairingCode → ℕ → Registry → Registry
after_use p node s = record s { codes = update_where (λ q. q.id == p.id) (use_by node) s.codes }

consume-peek :
    (now node : ℕ) (hash : String) (s : Registry) (p : PairingCode)
    → peek_pairing_code now hash s ≡ ok p
    → consume_pairing_code now hash node s ≡ ok (after_use p node s)
unfolding consume_pairing_code
consume-peek now node hash s p e = rw e refl

-- the code that a peek finds is unused
peek-found :
    (now : ℕ) (hash : String) (s : Registry) (p : PairingCode)
    → peek_pairing_code now hash s ≡ ok p
    → select_one (with_code hash) s.codes ≡ some p
unfolding peek_pairing_code code_state
peek-found now hash s p h =
    let (q, found, rest) =
      or_err_passed CodeError.unknown_code (select_one (with_code hash) s.codes) (code_state now)
        h in
    let (fresh, rest') = guard_passed (q.used_by == 0) used rest in
    let (alive, same) = guard_passed (not (ltb q.expires_at now)) CodeError.expired rest' in
    found ∙ cc same

-- and after it is used, any later peek says so
peek-after_use :
    (now node : ℕ) (hash : String) (s : Registry) (p : PairingCode)
    → 1 ≤ node
    → select_one (with_code hash) s.codes ≡ some p
    → peek_pairing_code now hash (after_use p node s) ≡ err used
unfolding peek_pairing_code code_state
peek-after_use now node hash s p h e =
    let f : PairingCode → Bool = λ q. q.id == p.id in
    let step = select_one-update (with_code hash) f (use_by node) (λ x. refl) s.codes in
    let found : select_one (with_code hash) (after_use p node s).codes ≡ some (use_by node p) =
      step
      ∙ ap (changed f (use_by node)) e
      ∙ ap (λ z. some (if z then use_by node p else p)) (==-refl p.id) in
    let taken : (node == 0) ≡ false = ground (arith, h) in rw found (rw taken refl)

-- what the pairing of an agent does: refused, with nothing changed, or done
abbrev pub Paired :
    (String → String) → String → Registry → Registry × Result PairError PairReply → Type 0
Paired hash code s res =
    ((e : PairError) × (res.1 ≡ err e) × (res.0 ≡ s))
    ⊎ ((reply : PairReply) × (res.1 ≡ ok reply)
        × ((later : ℕ) → peek_pairing_code later (hash code) res.0 ≡ err used)
        × (node_by_token_hash (hash reply.token) res.0 ≡ some reply.node))

-- a hash that no row has is not found
count-none :
    (p : NodeKey → Bool) (xs : List NodeKey)
    → ltb 0 (count_where p xs) ≡ false
    → select_one p xs ≡ none
unfolding count_where select_one
count-none p [] h = refl
count-none p (x ∷ xs) h = elim (Bool-cases (p x)) [
  | inl e ↦ absurd (ground (arith, e, h))
  | inr e ↦ rw e (count-none p xs (rw e at h))
]

module _ (now : ℕ) (hash : String → String) (code : String) (s : Registry)
    (node_pos : 1 ≤ s.next_node_id) where
  abbrev new_key : String → String → NodeKey
  new_key name tok = record { id = s.next_node_id; name = name; token_hash = hash tok }

  abbrev with_node : String → String → Registry
  with_node name tok = record s {
    nodes = s.nodes ++ new_key name tok ∷ [];
    next_node_id = s.next_node_id + 1;
  }

  abbrev taken : String → String → NodeKey → Bool
  taken name tok m = m.name =s= name || m.token_hash =s= hash tok

  peek-with_node :
      (name tok : String)
      → peek_pairing_code now (hash code) (with_node name tok) ≡ peek_pairing_code now (hash code) s
  unfolding peek_pairing_code
  peek-with_node name tok = refl

  -- the new node is found by its token
  node-found :
      (name tok : String)
      → ltb 0 (count_where (taken name tok) s.nodes) ≡ false
      → select_one (λ n. n.token_hash =s= hash tok) (with_node name tok).nodes
        ≡ some (new_key name tok)
  node-found name tok q =
      let p : NodeKey → Bool = λ n. n.token_hash =s= hash tok in
      let fewer = count_mono p (taken name tok) (λ x e. ground (arith, e)) s.nodes in
      select_one-append_new p s.nodes (new_key name tok) (eq_refl (hash tok))
        (count-none p s.nodes (ground (arith, q, fewer)))

  registered_node-Paired :
      (name tok : String) (p : PairingCode)
      → peek_pairing_code now (hash code) s ≡ ok p
      → Paired hash code s (registered_node now (hash code) tok s (create_node name (hash tok) s))
  unfolding create_node node_by_token_hash
  registered_node-Paired name tok p e =
      let t = with_node name tok in
      let n = new_key name tok in
      elim (Bool-cases (ltb 0 (count_where (taken name tok) s.nodes))) [
        | inl q ↦ rw q (inl (conflict, refl, refl))
        | inr q ↦
            let u = consume-peek now n.id (hash code) t p (peek-with_node name tok ∙ e) in
            rw q (
              rw u (
                inr (
                  record { node = n; token = tok },
                  refl,
                  λ later.
                      peek-after_use later n.id (hash code) t p node_pos
                        (peek-found now (hash code) t p (peek-with_node name tok ∙ e)),
                  node-found name tok q,
                )))
      ]

  admitted-Paired :
      (name : String) (tok : Option String) (found : Result CodeError PairingCode)
      → peek_pairing_code now (hash code) s ≡ found
      → Paired hash code s (admitted now hash name code tok s found)
  admitted-Paired name tok (err e) q = inl (unauthorized, refl, refl)
  admitted-Paired name none (ok p) q = inl (internal, refl, refl)
  admitted-Paired name (some tok) (ok p) q = registered_node-Paired name tok p q

  -- The pairing of an agent either is refused and leaves the codes and the nodes as they were, or
  -- succeeds: then the same code is reported as used at any later time, and the token that the agent
  -- gets finds the new node. Node ids are positive.
  pub handle_agent_pair-Paired :
      (format_ok : String → Bool) (tok : Option String) (name : String)
      → Paired hash code s (handle_agent_pair now hash format_ok tok name code s)
  unfolding handle_agent_pair
  handle_agent_pair-Paired format_ok tok name =
      if_both (Paired hash code s) (name =s= "" || ltb 64 (len name) || not (format_ok code))
        (inl (bad_request, refl, refl))
        (admitted-Paired name tok (peek_pairing_code now (hash code) s) refl)
