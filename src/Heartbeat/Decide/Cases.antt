-- ===== src/Heartbeat/Decide/Cases.antt =====
-- The instruction of `decide`, by the branches of the handler.
use encode_system.Prelude.{
  ℕ, ◌+◌, ◌-◌, ◌≤◌, ◌<◌, ◌≡◌, ◌⊎◌, inl, inr, refl, sym, ap, ◌∙◌, List, [], ◌∷◌, Bool, true, false,
  not, ◌&&◌, ◌||◌, some, arith, Bool-cases, if_both, length, leb,
}
use encode_system.Model.{Node, Heartbeat}
use encode_system.Jobs.{slots}
use encode_system.Server.{Env, Settings, Manifest, current_settings}
use encode_system.Heartbeat.Fill.{Payload, Filled, fill}
use encode_system.Heartbeat.Fill.Slots.{fill-length}
use encode_system.Heartbeat.Decide.{
  Controller, Reply, nothing, update, work, check_disk, disk_low, reply_of, unless_low, assign_work,
  reboot_limit, decide, outdated, scope_manifest,
}

-- What must hold for a node to be given work, and how much it is given.
pub record MayWork (env : Env) (hb : Heartbeat) (active : ℕ) (n : Node) (ps : List Payload)
    : Type 0 where
  pub enabled : n.enabled ≡ true
  pub not_syncing : hb.syncing ≡ false
  pub no_reboot : n.reboot_pending ≡ false
  pub below_limit : n.tasks_since_boot < env.config.tasks_before_reboot
  pub not_drained : (current_settings env).drain_mode ≡ false
  pub disk_ok : disk_low (current_settings env).disk_alert_gb hb.disk_free_gb ≡ false
  pub fits : active + length ps ≤ slots n

reply_of-work : (qs ps : List Payload) → reply_of qs ≡ work ps → qs ≡ ps
reply_of-work [] ps h = cc
reply_of-work (q ∷ qs) ps h = cc

unless_low-work :
    (env : Env) (n : Node) (free : ℕ) (low : Bool) (c : Controller) {ps : List Payload}
    → (unless_low env n free (low, c)).1 ≡ work ps
    → (low ≡ false) × ((current_settings env).drain_mode ≡ false) × (length ps ≤ free)
unless_low-work env n free true c h = cc
unless_low-work env n free false c {ps} h = elim (Bool-cases (current_settings env).drain_mode) [
  | inl e ↦ absurd (ground (arith, e))
  | inr e ↦
      let start : Filled = record { store = c.store; effects = c.effects; payloads = [] } in
      let q = reply_of-work (fill free env n start).payloads ps (ground (arith, e)) in
      (refl, e, omega (arith, fill-length free env n start, ap length q))
]

check_disk-low :
    (env : Env) (n : Node) (hb : Heartbeat) (c : Controller)
    → (check_disk env n hb c).0 ≡ disk_low (current_settings env).disk_alert_gb hb.disk_free_gb
unfolding check_disk
check_disk-low env n hb c =
    elim (Bool-cases (disk_low (current_settings env).disk_alert_gb hb.disk_free_gb)) [
      | inl e ↦ rw e refl
      | inr e ↦ rw e refl
    ]

-- the holds before the disk check
abbrev held : Env → Heartbeat → ℕ → Node → Bool
held env hb active n =
    hb.syncing
    || leb (slots n) active
    || n.reboot_pending
    || leb env.config.tasks_before_reboot n.tasks_since_boot

held-false :
    (env : Env) (hb : Heartbeat) (active : ℕ) (n : Node)
    → held env hb active n ≡ false
    → (hb.syncing ≡ false)
      × (active < slots n)
      × (n.reboot_pending ≡ false)
      × (n.tasks_since_boot < env.config.tasks_before_reboot)
held-false env hb active n h = (ground arith, ground arith, ground arith, ground arith)

assign_work-work :
    (env : Env) (hb : Heartbeat) (active : ℕ) (n : Node) (c : Controller) {ps : List Payload}
    → (assign_work env hb active n c).1 ≡ work ps
    → n.enabled ≡ true
    → MayWork env hb active n ps
unfolding assign_work
assign_work-work env hb active n c h en = elim (Bool-cases (held env hb active n)) [
  | inl e ↦ absurd (cc (rw e at h))
  | inr e ↦
      let (a, room, b, d) = held-false env hb active n e in
      let (low, drain, len) =
        unless_low-work env n (slots n - active) (check_disk env n hb c).0 (check_disk env n hb c).1
          (rw e at h) in
      record {
        enabled = en;
        not_syncing = a;
        no_reboot = b;
        below_limit = d;
        not_drained = drain;
        disk_ok = sym (check_disk-low env n hb c) ∙ low;
        fits = omega (arith, room, len);
      }
]

pub decide-work :
    (env : Env) (hb : Heartbeat) (a : Bool) (active : ℕ) (n : Node) (c : Controller)
    {ps : List Payload}
    → (decide env hb a active n c).1 ≡ work ps
    → MayWork env hb active n ps
unfolding decide
decide-work env hb a active n c {ps} h = elim (Bool-cases n.enabled) [
  | inl en ↦ assign_work-work env hb active n c (ground (arith, en)) en
  | inr off ↦ absurd (ground (arith, off))
]

-- The replies of the assignment phase.
abbrev IsQueueReply : Reply → Type 0
IsQueueReply r = (r ≡ nothing) ⊎ ((ps : List Payload) × (r ≡ work ps))

reply_of-IsQueueReply : (ps : List Payload) → IsQueueReply (reply_of ps)
reply_of-IsQueueReply [] = inl refl
reply_of-IsQueueReply (p ∷ ps) = inr (p ∷ ps, refl)

unless_low-IsQueueReply :
    (env : Env) (n : Node) (free : ℕ) (low : Bool) (c : Controller)
    → IsQueueReply (unless_low env n free (low, c)).1
unless_low-IsQueueReply env n free true c = inl refl
unless_low-IsQueueReply env n free false c =
    if_both (λ (r : Controller × Reply). IsQueueReply r.1) (current_settings env).drain_mode
      (inl refl)
      (reply_of-IsQueueReply
        (fill free env n (record { store = c.store; effects = c.effects; payloads = [] })).payloads)

assign_work-IsQueueReply :
    (env : Env) (hb : Heartbeat) (active : ℕ) (n : Node) (c : Controller)
    → IsQueueReply (assign_work env hb active n c).1
unfolding assign_work
assign_work-IsQueueReply env hb active n c =
    if_both (λ (r : Controller × Reply). IsQueueReply r.1) (held env hb active n) (inl refl)
      (unless_low-IsQueueReply env n (slots n - active) (check_disk env n hb c).0
        (check_disk env n hb c).1)

pub decide-busy :
    (env : Env) (hb : Heartbeat) (a : Bool) (active : ℕ) (n : Node) (c : Controller)
    → a ≡ true
    → IsQueueReply (decide env hb a active n c).1
unfolding decide
decide-busy env hb true active n c h =
    if_both (λ (r : Controller × Reply). IsQueueReply r.1) (not n.enabled) (inl refl)
      (assign_work-IsQueueReply env hb active n c)
decide-busy env hb false active n c h = cc

-- a task limit that only the configuration sees
pub decide-starved :
    (env : Env) (hb : Heartbeat) (a : Bool) (active : ℕ) (n : Node) (c : Controller)
    → env.config.tasks_before_reboot ≤ n.tasks_since_boot
    → n.tasks_since_boot < reboot_limit env
    → n.reboot_pending ≡ false
    → ((decide env hb a active n c).1 ≡ nothing)
      ⊎ ((m : Manifest) × ((decide env hb a active n c).1 ≡ update m))
unfolding decide assign_work
decide-starved env hb a active n c low high p =
    elim (Bool-cases (n.enabled && not a && outdated (scope_manifest env.manifest n) n)) [
      | inl e ↦ inr (scope_manifest env.manifest n, ground arith)
      | inr e ↦ inl (ground arith)
    ]

pub reboot_limit-set :
    (env : Env) (st : Settings) (k : ℕ)
    → env.settings ≡ some st
    → k < st.tasks_before_reboot
    → k < reboot_limit env
unfolding reboot_limit
reboot_limit-set env st k e h = ground arith
