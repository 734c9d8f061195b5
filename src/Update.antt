-- ===== src/Update.antt =====
-- The published payloads and their manifest (backend/internal/update/update.go). A payload is the list of
-- its bytes, SHA-256 is a parameter, and file operations succeed where their file is there.
pub mod Rollback
mod Examples
use encode_system.Prelude.{
  ℕ, String, List, Bool, true, false, not, Option, none, some, leb, ◌=s=◌, if◌then◌else◌, length,
}
use encode_system.Prelude.Results.{Result, ok, err}
use encode_system.Server.{Manifest}

pub data Platform : Type 0 where
  windows linux : Platform

-- strings.ToLower is a parameter
abbrev pub normalize_platform : (String → String) → String → Platform
normalize_platform to_lower p = if to_lower p =s= "linux" then linux else windows

-- The agent of one platform: its fields of the manifest, its payload and the payload of the rollback slot.
pub record AgentSlot : Type 0 where
  pub version : String
  pub sha : String
  pub prev_version : String
  pub prev_sha : String
  pub payload : Option (List ℕ)
  pub prev_payload : Option (List ℕ)

-- a counted payload: EncodeLib and the bin package
pub record Counted : Type 0 where
  pub version : ℕ
  pub sha : String
  pub size : ℕ
  pub payload : Option (List ℕ)

pub record UpdateStore : Type 0 where
  pub windows_agent : AgentSlot
  pub linux_agent : AgentSlot
  pub lib : Counted
  pub bin : Counted

pub data UpdateError : Type 0 where
  already_published must_exceed no_rollback rollback_failed : UpdateError

unfoldable pub manifest_of : UpdateStore → Manifest
manifest_of s = record {
  agent_version = s.windows_agent.version;
  agent_sha256 = s.windows_agent.sha;
  prev_agent_version = s.windows_agent.prev_version;
  prev_agent_sha256 = s.windows_agent.prev_sha;
  linux_agent_version = s.linux_agent.version;
  linux_agent_sha256 = s.linux_agent.sha;
  prev_linux_agent_version = s.linux_agent.prev_version;
  prev_linux_agent_sha256 = s.linux_agent.prev_sha;
  lib_version = s.lib.version;
  lib_sha256 = s.lib.sha;
  bin_version = s.bin.version;
  bin_sha256 = s.bin.sha;
  bin_size = s.bin.size;
}

abbrev pub slot_of : Platform → UpdateStore → AgentSlot
slot_of windows s = s.windows_agent
slot_of linux s = s.linux_agent

abbrev pub put_slot : Platform → AgentSlot → UpdateStore → UpdateStore
put_slot windows a s = record s { windows_agent = a }
put_slot linux a s = record s { linux_agent = a }

abbrev pub set_agent_version : String → String → AgentSlot → AgentSlot
set_agent_version version sha a = record a { version = version; sha = sha }

abbrev pub set_prev_agent : String → String → AgentSlot → AgentSlot
set_prev_agent version sha a = record a { prev_version = version; prev_sha = sha }

abbrev pub publish_checked :
    Platform → UpdateStore → Bool → AgentSlot → Result UpdateError UpdateStore
publish_checked p s true a = err already_published
publish_checked p s false a = ok (put_slot p a s)

abbrev pub with_lib : UpdateStore → Result UpdateError Counted → Result UpdateError UpdateStore
with_lib s (err e) = err e
with_lib s (ok t) = ok (record s { lib = record t { size = s.lib.size } })

abbrev pub with_bin : UpdateStore → Result UpdateError Counted → Result UpdateError UpdateStore
with_bin s (err e) = err e
with_bin s (ok t) = ok (record s { bin = t })

module _ (hash : List ℕ → String) where
  -- the outgoing release goes into the rollback slot if it has a version and its file is there
  abbrev pub rotate : AgentSlot → Option (List ℕ) → AgentSlot → AgentSlot
  rotate old none a = record (set_prev_agent "" "" a) { prev_payload = none }
  rotate old (some c) a =
      if old.version =s= ""
      then record (set_prev_agent "" "" a) { prev_payload = none }
      else record (set_prev_agent old.version (hash c) a) { prev_payload = some c }

  unfoldable pub publish_slot : String → List ℕ → AgentSlot → AgentSlot
  publish_slot version c a =
      rotate a a.payload (record (set_agent_version version (hash c) a) { payload = some c })

  -- PublishAgent
  unfoldable pub publish_agent :
      Platform → String → List ℕ → UpdateStore → Result UpdateError UpdateStore
  unfolding publish_slot
  publish_agent p version c s =
      publish_checked p s (version =s= (slot_of p s).version) (publish_slot version c (slot_of p s))

  -- PublishLib and PublishBin
  unfoldable pub publish_counted : ℕ → List ℕ → Counted → Result UpdateError Counted
  publish_counted version c t =
      if leb version t.version
      then err must_exceed
      else ok (record { version = version; sha = hash c; size = length c; payload = some c })

  unfoldable pub publish_lib : ℕ → List ℕ → UpdateStore → Result UpdateError UpdateStore
  unfolding publish_counted
  publish_lib version c s = with_lib s (publish_counted version c s.lib)

  unfoldable pub publish_bin : ℕ → List ℕ → UpdateStore → Result UpdateError UpdateStore
  unfolding publish_counted
  publish_bin version c s = with_bin s (publish_counted version c s.bin)

  -- loadFromDisk, for the manifest that was written: the hashes of the payloads that are there, and no
  -- entry for one that is not
  abbrev pub recover_current : Option (List ℕ) → AgentSlot → AgentSlot
  recover_current none a = set_agent_version "" "" a
  recover_current (some c) a = record a { sha = hash c }

  abbrev pub recover_prev : Option (List ℕ) → AgentSlot → AgentSlot
  recover_prev none a = set_prev_agent "" "" a
  recover_prev (some c) a = record a { prev_sha = hash c }

  unfoldable pub recover_slot : AgentSlot → AgentSlot
  recover_slot a = recover_prev a.prev_payload (recover_current a.payload a)

  abbrev pub recover_lib : Option (List ℕ) → Counted → Counted
  recover_lib none t = record t { version = 0; sha = "" }
  recover_lib (some c) t = record t { sha = hash c }

  -- the size of a bin package that is not there stays
  abbrev pub recover_bin : Option (List ℕ) → Counted → Counted
  recover_bin none t = record t { version = 0; sha = "" }
  recover_bin (some c) t = record t { sha = hash c; size = length c }

  unfoldable pub load_from_disk : UpdateStore → UpdateStore
  unfolding recover_slot
  load_from_disk s = record {
    windows_agent = recover_slot s.windows_agent;
    linux_agent = recover_slot s.linux_agent;
    lib = recover_lib s.lib.payload s.lib;
    bin = recover_bin s.bin.payload s.bin;
  }

-- The last lines of RollbackAgent: the second call reads the hash that the first one has set.
abbrev pub flip_prev : String → AgentSlot → AgentSlot
flip_prev cur_version a = set_prev_agent cur_version a.sha a

abbrev pub flip : String → String → AgentSlot → AgentSlot
flip cur_version prev_version a =
    flip_prev cur_version (set_agent_version prev_version a.prev_sha a)

abbrev pub swap_payloads :
    AgentSlot → Option (List ℕ) → Option (List ℕ) → Result UpdateError AgentSlot
swap_payloads a current none = err no_rollback
swap_payloads a none (some c) = err rollback_failed
swap_payloads a (some d) (some c) =
    ok (flip a.version a.prev_version (record a { payload = some c; prev_payload = some d }))

unfoldable pub rollback_slot : AgentSlot → Result UpdateError AgentSlot
rollback_slot a =
    if a.prev_version =s= "" then err no_rollback else swap_payloads a a.payload a.prev_payload

abbrev pub rolled_back :
    Platform → UpdateStore → Result UpdateError AgentSlot → Result UpdateError UpdateStore
rolled_back p s (err e) = err e
rolled_back p s (ok a) = ok (put_slot p a s)

unfoldable pub rollback_agent : Platform → UpdateStore → Result UpdateError UpdateStore
unfolding rollback_slot
rollback_agent p s = rolled_back p s (rollback_slot (slot_of p s))
