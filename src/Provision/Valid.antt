-- ===== src/Provision/Valid.antt =====
-- What a validated provisioning request is (backend/internal/provision/engine.go).
use encode_system.Prelude.{
  ℕ, ◌≡◌, ◌⊎◌, inl, inr, refl, sym, ap, ◌∙◌, String, Bool, true, false, not, ◌&&◌, arith, ◌=s=◌,
  Bool-cases, eq_iff, ◌==◌, if◌then◌else◌, All, [], ◌∷◌,
}
use encode_system.Prelude.Int.{ℤ, pos, negsuc}
use encode_system.Prelude.Results.{Result, ok, guard_passed}
use mathlib.Core.Path.{subst}
use encode_system.Provision.Request.{
  bad_platform, bad_host, no_node_name, bad_node_name, bad_port, bad_scheme, bad_cert_validation,
  no_password, no_ssh_user, no_ssh_auth, ProvisionRequest, InvalidRequest, is_name_char,
  is_host_char, matches_all, or_default, or_port, port_in_range, one_of, default_cert,
  validate_windows, validate_linux, validate_platform, checked, validate,
}

-- the fields that every request has
abbrev pub Named : ProvisionRequest → Type 0
Named q =
    (matches_all is_host_char q.host ≡ true)
    × ((q.node_name =s= "") ≡ false)
    × (matches_all is_name_char q.node_name ≡ true)
    × (port_in_range q.port ≡ true)

abbrev pub WindowsRequest : ProvisionRequest → Type 0
WindowsRequest q =
    (q.platform ≡ "windows")
    × (one_of "http" "https" q.scheme ≡ true)
    × (one_of "validate" "ignore" q.cert_validation ≡ true)
    × ((q.winrm_user =s= "") ≡ false)
    × ((q.winrm_password =s= "") ≡ false)

abbrev pub LinuxRequest : (String → String) → ProvisionRequest → Type 0
LinuxRequest trim_space q =
    (q.platform ≡ "linux")
    × ((q.ssh_user =s= "") ≡ false)
    × ((q.ssh_password =s= "" && trim_space q.ssh_key_file =s= "") ≡ false)

or_default-nonempty : (d s : String) → (d =s= "") ≡ false → (or_default d s =s= "") ≡ false
or_default-nonempty d s h = elim (Bool-cases (s =s= "")) [ inl e ↦ rw e h | inr e ↦ rw e e ]

not-true : (b : Bool) → not b ≡ true → b ≡ false
not-true true h = sym h
not-true false h = refl

ok-path :
    {x y : ProvisionRequest}
    → ◌≡◌ {A = Result InvalidRequest ProvisionRequest} (ok x) (ok y)
    → x ≡ y
ok-path h = cc h

one_of-cases : (a b s : String) → one_of a b s ≡ true → (s ≡ a) ⊎ (s ≡ b)
one_of-cases a b s h = elim (Bool-cases (s =s= a)) [
  | inl e ↦ inl ((eq_iff s a).0 e)
  | inr e ↦ inr ((eq_iff s b).0 (ground (arith, e, h)))
]

module _ (to_lower trim_space : String → String) where
  abbrev pub Valid : ProvisionRequest → Type 0
  Valid q = Named q × (WindowsRequest q ⊎ LinuxRequest trim_space q)

  windows-Valid :
      (r q : ProvisionRequest)
      → (matches_all is_host_char r.host ≡ true)
        × ((r.node_name =s= "") ≡ false)
        × (matches_all is_name_char r.node_name ≡ true)
      → r.platform ≡ "windows"
      → validate_windows to_lower trim_space r ≡ ok q
      → Valid q
  unfolding validate_windows
  windows-Valid r q (host, named, name) pf h =
      let p = or_port 5985 r.port in
      let sc = or_default "http" (to_lower r.scheme) in
      let ce = or_default (default_cert sc) (to_lower r.cert_validation) in
      let (port, h1) = guard_passed (port_in_range p) bad_port h in
      let (scheme, h2) = guard_passed (one_of "http" "https" sc) bad_scheme h1 in
      let (cert, h3) = guard_passed (one_of "validate" "ignore" ce) bad_cert_validation h2 in
      let (password, h4) = guard_passed (not (r.winrm_password =s= "")) no_password h3 in
      let user = or_default-nonempty "Administrator" r.winrm_user refl in
      subst Valid (ok-path h4) (
        (host, named, name, port),
        inl (pf, scheme, cert, user, not-true (r.winrm_password =s= "") password),
      )

  linux-Valid :
      (r q : ProvisionRequest)
      → (matches_all is_host_char r.host ≡ true)
        × ((r.node_name =s= "") ≡ false)
        × (matches_all is_name_char r.node_name ≡ true)
      → r.platform ≡ "linux"
      → validate_linux to_lower trim_space r ≡ ok q
      → Valid q
  unfolding validate_linux
  linux-Valid r q (host, named, name) pf h =
      let (port, h1) = guard_passed (port_in_range (or_port 22 r.port)) bad_port h in
      let (user, h2) = guard_passed (not (r.ssh_user =s= "")) no_ssh_user h1 in
      let (auth, h3) =
        guard_passed (not (r.ssh_password =s= "" && trim_space r.ssh_key_file =s= "")) no_ssh_auth
          h2 in
      subst Valid (ok-path h3) (
        (host, named, name, port),
        inr (
          pf,
          not-true (r.ssh_user =s= "") user,
          not-true (r.ssh_password =s= "" && trim_space r.ssh_key_file =s= "") auth,
        ),
      )

  platform-Valid :
      (r q : ProvisionRequest)
      → (matches_all is_host_char r.host ≡ true)
        × ((r.node_name =s= "") ≡ false)
        × (matches_all is_name_char r.node_name ≡ true)
      → one_of "windows" "linux" r.platform ≡ true
      → validate_platform to_lower trim_space r ≡ ok q
      → Valid q
  platform-Valid r q named known h = elim (Bool-cases (r.platform =s= "linux")) [
    | inl e ↦ linux-Valid r q named ((eq_iff r.platform "linux").0 e) (rw e at h)
    | inr e ↦
        let windows : (r.platform =s= "windows") ≡ true = ground (arith, e, known) in
        windows-Valid r q named ((eq_iff r.platform "windows").0 windows) (rw e at h)
  ]

  checked-Valid : (r q : ProvisionRequest) → checked to_lower trim_space r ≡ ok q → Valid q
  checked-Valid r q h =
      let (platform, h1) = guard_passed (one_of "windows" "linux" r.platform) bad_platform h in
      let (host, h2) = guard_passed (matches_all is_host_char r.host) bad_host h1 in
      let (named, h3) = guard_passed (not (r.node_name =s= "")) no_node_name h2 in
      let (name, h4) = guard_passed (matches_all is_name_char r.node_name) bad_node_name h3 in
      platform-Valid r q (host, not-true (r.node_name =s= "") named, name) platform h4

  -- strings.ToLower leaves a text without capitals as it is
  abbrev pub LowerKept : Type 0
  LowerKept =
      All (λ (s : String). to_lower s ≡ s)
        ("windows" ∷ "linux" ∷ "http" ∷ "https" ∷ "validate" ∷ "ignore" ∷ [])

  lower_one_of :
      (a b d s : String)
      → to_lower a ≡ a
      → to_lower b ≡ b
      → (a =s= "") ≡ false
      → (b =s= "") ≡ false
      → one_of a b s ≡ true
      → or_default d (to_lower s) ≡ s
  lower_one_of a b d s la lb na nb h = elim (one_of-cases a b s h) [
    | inl e ↦ subst (λ z. or_default d (to_lower z) ≡ z) (sym e) (rw la (rw na refl))
    | inr e ↦ subst (λ z. or_default d (to_lower z) ≡ z) (sym e) (rw lb (rw nb refl))
  ]

  port_kept : (d : ℕ) (p : ℤ) → port_in_range p ≡ true → or_port d p ≡ p
  port_kept d (pos n) h = let some_port : (n == 0) ≡ false = ground (arith, h) in rw some_port refl
  port_kept d (negsuc n) h = refl

  nonempty_kept : (d s : String) → (s =s= "") ≡ false → or_default d s ≡ s
  nonempty_kept d s h = rw h refl

  windows-again :
      (q : ProvisionRequest)
      → LowerKept
      → Named q
      → WindowsRequest q
      → validate_windows to_lower trim_space q ≡ ok q
  unfolding validate_windows
  windows-again q (w, (l, (ht, (hs, (va, (ig, _)))))) (host, named, name, port)
        (pf, scheme, cert, user, password) =
      let p = port_kept 5985 q.port port in
      let s = lower_one_of "http" "https" "http" q.scheme ht hs refl refl scheme in
      let c =
        lower_one_of "validate" "ignore" (default_cert q.scheme) q.cert_validation va ig refl refl
          cert in
      let u = nonempty_kept "Administrator" q.winrm_user user in
      rw s (rw c (rw p (rw port (rw scheme (rw cert (rw password (rw u refl)))))))

  linux-again :
      (q : ProvisionRequest)
      → Named q
      → LinuxRequest trim_space q
      → validate_linux to_lower trim_space q ≡ ok q
  unfolding validate_linux
  linux-again q (host, named, name, port) (pf, user, auth) =
      rw (port_kept 22 q.port port) (rw port (rw user (rw auth refl)))

  platform-again :
      (q : ProvisionRequest)
      → LowerKept
      → Valid q
      → (one_of "windows" "linux" q.platform ≡ true)
        × (validate_platform to_lower trim_space q ≡ ok q)
  platform-again q low (named, inl w) =
      let pf = w.0 in
      (
        subst (λ z. one_of "windows" "linux" z ≡ true) (sym pf) refl,
        subst
            (λ z.
              (if z =s= "linux"
                then validate_linux to_lower trim_space q
                else validate_windows to_lower trim_space q)
              ≡ ok q)
            (sym pf) (windows-again q low named w),
      )
  platform-again q low (named, inr l) =
      let pf = l.0 in
      (
        subst (λ z. one_of "windows" "linux" z ≡ true) (sym pf) refl,
        subst
            (λ z.
              (if z =s= "linux"
                then validate_linux to_lower trim_space q
                else validate_windows to_lower trim_space q)
              ≡ ok q)
            (sym pf) (linux-again q named l),
      )

  validate-again :
      (q : ProvisionRequest) → LowerKept → Valid q → validate to_lower trim_space q ≡ ok q
  unfolding validate
  validate-again q low valid =
      let (host, named, name, port) = valid.0 in
      let (known, platform) = platform-again q low valid in
      let same : or_default "windows" (to_lower q.platform) ≡ q.platform =
        lower_one_of "windows" "linux" "windows" q.platform low.0 low.1.0 refl refl known in
      ap (λ z. checked to_lower trim_space (record q { platform = z })) same
      ∙ rw known (rw host (rw name (rw named platform)))

  -- A request that passes the validation names a host and a node in the allowed characters and a port from
  -- 1 to 65535; for Windows its scheme is http or https, its certificates are validated or ignored, and it
  -- has a user and a password; for Linux it has a user, and a password or a key file, or both. The
  -- validated request passes again, unchanged, where strings.ToLower keeps the six lower-case words.
  pub validate-Valid :
      (r q : ProvisionRequest)
      → LowerKept
      → validate to_lower trim_space r ≡ ok q
      → Valid q × (validate to_lower trim_space q ≡ ok q)
  unfolding validate
  validate-Valid r q low h =
      let valid =
        checked-Valid (record r { platform = or_default "windows" (to_lower r.platform) }) q h in
      (valid, validate-again q low valid)
