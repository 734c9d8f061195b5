-- ===== src/Accounts/Pairing.antt =====
-- One-shot pairing codes (backend/internal/store/store_ext.go) and the pairing of an agent
-- (handleCreatePairingCode and handleAgentPair of backend/internal/api/handlers_templates.go).
pub mod OneShot
use Prim.Native.String.{len}
use encode_system.Prelude.{
  ℕ, suc, zero, ◌+◌, ◌*◌, String, List, [], ◌∷◌, ◌++◌, Bool, true, false, not, ◌&&◌, ◌||◌, Option,
  none, some, ◌==◌, ltb, leb, ◌=s=◌, if◌then◌else◌,
}
use encode_system.Prelude.Int.{ℤ, pos, negsuc}
use encode_system.Prelude.Results.{Result, ok, err, ◌>>=◌, ◌>>◌, guard, or_err}
use encode_system.Table.{select_one, select_where, count_where, update_where, delete_where}

pub record PairingCode : Type 0 where
  pub id : ℕ
  pub code_hash : String
  pub name_hint : String
  pub expires_at : ℕ
  -- the node's id once consumed, else 0
  pub used_by : ℕ

-- a row of the nodes table, as pairing and the agent's authentication use it
pub record NodeKey : Type 0 where
  pub id : ℕ
  pub name : String
  pub token_hash : String

pub record Registry : Type 0 where
  pub codes : List PairingCode
  pub next_code_id : ℕ
  pub nodes : List NodeKey
  pub next_node_id : ℕ

pub data PairError : Type 0 where
  bad_request unauthorized conflict internal : PairError

pub data CodeError : Type 0 where
  unknown_code used expired : CodeError

-- `if ttl <= 0 || ttl > 24*time.Hour { ttl = 1 * time.Hour }`, of hours, in seconds
abbrev pub usable_ttl : ℤ → ℕ
usable_ttl (negsuc n) = 3600
usable_ttl (pos n) = if leb n 0 || ltb 24 n then 3600 else n * 3600

unfoldable pub create_pairing_code : ℕ → String → String → ℕ → Registry → Registry
create_pairing_code now hash hint ttl s = record s {
  codes =
      s.codes
      ++ record {
        id = s.next_code_id;
        code_hash = hash;
        name_hint = hint;
        expires_at = now + ttl;
        used_by = 0;
      }
        ∷ [];
  next_code_id = s.next_code_id + 1;
}

-- the code is hashed as HashToken does; `none` is a failed random source
unfoldable pub handle_create_pairing_code :
    (String → String)
    → ℕ
    → Option String
    → String
    → ℤ
    → Registry
    → Registry × Result PairError String
unfolding create_pairing_code
handle_create_pairing_code hash now none hint ttl s = (s, err internal)
handle_create_pairing_code hash now (some code) hint ttl s =
    (create_pairing_code now (hash code) hint (usable_ttl ttl) s, ok code)

unfoldable pub list_pairing_codes : ℕ → Registry → List PairingCode
list_pairing_codes now s = select_where (λ p. p.used_by == 0 && ltb now p.expires_at) s.codes

-- the checks that peek and consume share
unfoldable pub code_state : ℕ → PairingCode → Result CodeError PairingCode
code_state now p = do guard (p.used_by == 0) used; guard (not (ltb p.expires_at now)) expired; ok p

unfoldable pub peek_pairing_code : ℕ → String → Registry → Result CodeError PairingCode
unfolding code_state
peek_pairing_code now hash s = do
  p ← or_err unknown_code (select_one (λ p. p.code_hash =s= hash) s.codes)
  code_state now p

-- ConsumePairingCode, one transaction
unfoldable pub consume_pairing_code : ℕ → String → ℕ → Registry → Result CodeError Registry
unfolding peek_pairing_code
consume_pairing_code now hash node_id s = do
  p ← peek_pairing_code now hash s
  ok (record s {
    codes = update_where (λ q. q.id == p.id) (λ q. record q { used_by = node_id }) s.codes;
  })

-- `name` and `token_hash` are unique
unfoldable pub create_node : String → String → Registry → Option (Registry × NodeKey)
create_node name hash s =
    let n : NodeKey = record { id = s.next_node_id; name = name; token_hash = hash } in
    if ltb 0 (count_where (λ m. m.name =s= name || m.token_hash =s= hash) s.nodes)
    then none
    else some (record s { nodes = s.nodes ++ n ∷ []; next_node_id = s.next_node_id + 1 }, n)

unfoldable pub delete_node : ℕ → Registry → Registry
delete_node id s = record s { nodes = delete_where (λ n. n.id == id) s.nodes }

unfoldable pub node_by_token_hash : String → Registry → Option NodeKey
node_by_token_hash hash s = select_one (λ n. n.token_hash =s= hash) s.nodes

pub record PairReply : Type 0 where
  pub node : NodeKey
  pub token : String

-- a code that was just valid fails only if another request took it
abbrev pub consumed :
    NodeKey → String → Registry → Result CodeError Registry → Registry × Result PairError PairReply
consumed n tok s (err e) = (delete_node n.id s, err conflict)
consumed n tok s (ok t) = (t, ok (record { node = n; token = tok }))

abbrev pub registered_node :
    ℕ
    → String
    → String
    → Registry
    → Option (Registry × NodeKey)
    → Registry × Result PairError PairReply
registered_node now hash tok s none = (s, err conflict)
registered_node now hash tok s (some (t, n)) =
    consumed n tok t (consume_pairing_code now hash n.id t)

abbrev pub admitted :
    ℕ
    → (String → String)
    → String
    → String
    → Option String
    → Registry
    → Result CodeError PairingCode
    → Registry × Result PairError PairReply
admitted now hash name code tok s (err e) = (s, err unauthorized)
admitted now hash name code none s (ok p) = (s, err internal)
admitted now hash name code (some tok) s (ok p) =
    registered_node now (hash code) tok s (create_node name (hash tok) s)

-- handleAgentPair; `format_ok` is the regular expression of a code, and the name is trimmed
unfoldable pub handle_agent_pair :
    ℕ
    → (String → String)
    → (String → Bool)
    → Option String
    → String
    → String
    → Registry
    → Registry × Result PairError PairReply
unfolding peek_pairing_code consume_pairing_code create_node delete_node
handle_agent_pair now hash format_ok tok name code s =
    if name =s= "" || ltb 64 (len name) || not (format_ok code)
    then (s, err bad_request)
    else admitted now hash name code tok s (peek_pairing_code now (hash code) s)
