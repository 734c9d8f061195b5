-- ===== src/Update/Rollback.antt =====
-- A publish of an agent, and the rollbacks after it (backend/internal/update/update.go).
use encode_system.Prelude.{ℕ, ◌≡◌, refl, ap, ◌∙◌, String, List, false, some, ◌=s=◌}
use encode_system.Prelude.Results.{ok}
use encode_system.Update.{
  Platform, windows, linux, AgentSlot, UpdateStore, slot_of, put_slot, publish_slot,
  publish_checked, publish_agent, recover_slot, rollback_slot, rolled_back, rollback_agent,
}

-- The slot whose current release is v with the payload d, and whose rollback slot has the release `old` with
-- the payload c; the manifest has the two hashes for them.
abbrev pub published : String → List ℕ → String → List ℕ → String → String → AgentSlot
published v d old c new_sha old_sha = record {
  version = v;
  sha = new_sha;
  prev_version = old;
  prev_sha = old_sha;
  payload = some d;
  prev_payload = some c;
}

slot-put : (p : Platform) (a : AgentSlot) (s : UpdateStore) → slot_of p (put_slot p a s) ≡ a
slot-put windows a s = refl
slot-put linux a s = refl

put_twice :
    (p : Platform) (a b : AgentSlot) (s : UpdateStore)
    → put_slot p b (put_slot p a s) ≡ put_slot p b s
put_twice windows a b s = refl
put_twice linux a b s = refl

module _ (hash : List ℕ → String) where
  publish_slot-kept :
      (v : String) (d c : List ℕ) (a : AgentSlot)
      → (a.version =s= "") ≡ false
      → a.payload ≡ some c
      → publish_slot hash v d a ≡ published v d a.version c (hash d) (hash c)
  unfolding publish_slot
  publish_slot-kept v d c a h e = rw e (rw h refl)

  rollback_slot-published :
      (v w x y : String) (d c : List ℕ)
      → (w =s= "") ≡ false
      → rollback_slot (published v d w c x y) ≡ ok (published w c v d y y)
  unfolding rollback_slot
  rollback_slot-published v w x y d c h = rw h refl

  rollback_agent-put :
      (p : Platform) (a b : AgentSlot) (s : UpdateStore)
      → rollback_slot a ≡ ok b
      → rollback_agent p (put_slot p a s) ≡ ok (put_slot p b s)
  unfolding rollback_agent
  rollback_agent-put p a b s h =
      ap (λ z. rolled_back p (put_slot p a s) (rollback_slot z)) (slot-put p a s)
      ∙ ap (rolled_back p (put_slot p a s)) h
      ∙ ap ok (put_twice p a b s)

  recovered :
      (v w x y : String) (d c : List ℕ)
      → recover_slot hash (published v d w c x y) ≡ published v d w c (hash d) (hash c)
  unfolding recover_slot
  recovered v w x y d c = refl

  -- Of a platform whose current release has a version and the payload c: the publish of another version with
  -- the payload d succeeds, and the rollback after it brings back the release with its version, its payload
  -- and the payload's hash. A second rollback brings back the new version and its payload, but both hashes of
  -- the manifest are then that of the payload c. Reading the payloads again at a restart repairs them. The
  -- other platform and the other payloads stay as they were in each step.
  pub publish-rollback :
      (p : Platform) (v : String) (d c : List ℕ) (s : UpdateStore)
      → (v =s= (slot_of p s).version) ≡ false
      → (v =s= "") ≡ false
      → ((slot_of p s).version =s= "") ≡ false
      → (slot_of p s).payload ≡ some c
      → (t : UpdateStore) × (publish_agent hash p v d s ≡ ok t)
        × (rollback_agent p t
            ≡ ok (put_slot p (published (slot_of p s).version c v d (hash c) (hash c)) s))
        × (rollback_agent p (put_slot p (published (slot_of p s).version c v d (hash c) (hash c)) s)
            ≡ ok (put_slot p (published v d (slot_of p s).version c (hash c) (hash c)) s))
        × (recover_slot hash (published v d (slot_of p s).version c (hash c) (hash c))
            ≡ published v d (slot_of p s).version c (hash d) (hash c))
  unfolding publish_agent
  publish-rollback p v d c s other named old e =
      let a = slot_of p s in
      let new = publish_slot-kept v d c a old e in
      (
        put_slot p (published v d a.version c (hash d) (hash c)) s,
        ap (λ b. publish_checked p s b (publish_slot hash v d a)) other
            ∙ ap (λ z. ok (put_slot p z s)) new,
        rollback_agent-put p _ _ s (rollback_slot-published v a.version (hash d) (hash c) d c old),
        rollback_agent-put p _ _ s
            (rollback_slot-published a.version v (hash c) (hash c) c d named),
        recovered v a.version (hash c) (hash c) d c,
      )
