-- ===== src/Provision/Request.antt =====
-- The validation of a provisioning request (Request.Validate of backend/internal/provision/engine.go).
-- strings.ToLower and strings.TrimSpace are parameters; the two regular expressions say which characters a
-- text has, at least one.
use Prim.Native.Char.{code}
use encode_system.Prelude.{ℕ, String, Bool, true, not, ◌&&◌, ◌||◌, ◌==◌, leb, ◌=s=◌, if◌then◌else◌}
use encode_system.Prelude.Int.{ℤ, pos, ltbℤ, eqbℤ}
use encode_system.Prelude.Results.{Result, ok, ◌>>◌, guard}

pub record ProvisionRequest : Type 0 where
  pub host : String
  pub port : ℤ
  pub scheme : String
  pub cert_validation : String
  pub winrm_user : String
  pub winrm_password : String
  pub node_name : String
  pub platform : String
  pub ssh_user : String
  pub ssh_password : String
  pub ssh_key_file : String

pub data InvalidRequest : Type 0 where
  bad_platform bad_host no_node_name bad_node_name bad_port bad_scheme bad_cert_validation :
      InvalidRequest
  no_password no_ssh_user no_ssh_auth : InvalidRequest

abbrev pub is_name_char : ℕ → Bool
is_name_char c =
    (leb 65 c && leb c 90)
    || (leb 97 c && leb c 122)
    || (leb 48 c && leb c 57)
    || c == 46
    || c == 95
    || c == 45

-- and : [ ]
abbrev pub is_host_char : ℕ → Bool
is_host_char c = is_name_char c || c == 58 || c == 91 || c == 93

unfoldable pub all_chars : (ℕ → Bool) → String → Bool
all_chars p String.[] = true
all_chars p (String.◌∷◌ c s) = p (code c) && all_chars p s

abbrev pub matches_all : (ℕ → Bool) → String → Bool
matches_all p s = not (s =s= "") && all_chars p s

abbrev pub or_default : String → String → String
or_default d s = if s =s= "" then d else s

abbrev pub or_port : ℕ → ℤ → ℤ
or_port d p = if eqbℤ p (pos 0) then pos d else p

abbrev pub port_in_range : ℤ → Bool
port_in_range p = not (ltbℤ p (pos 1)) && not (ltbℤ (pos 65535) p)

abbrev pub one_of : String → String → String → Bool
one_of a b s = s =s= a || s =s= b

-- https asks for a valid certificate unless the request says otherwise
abbrev pub default_cert : String → String
default_cert scheme = if scheme =s= "https" then "validate" else "ignore"

module _ (to_lower trim_space : String → String) where
  unfoldable pub validate_windows : ProvisionRequest → Result InvalidRequest ProvisionRequest
  validate_windows r =
      let port = or_port 5985 r.port in
      let scheme = or_default "http" (to_lower r.scheme) in
      let cert = or_default (default_cert scheme) (to_lower r.cert_validation) in
      do
        guard (port_in_range port) bad_port
        guard (one_of "http" "https" scheme) bad_scheme
        guard (one_of "validate" "ignore" cert) bad_cert_validation
        guard (not (r.winrm_password =s= "")) no_password
        ok (record r {
          port = port;
          scheme = scheme;
          cert_validation = cert;
          winrm_user = or_default "Administrator" r.winrm_user;
        })

  unfoldable pub validate_linux : ProvisionRequest → Result InvalidRequest ProvisionRequest
  validate_linux r =
      let port = or_port 22 r.port in
      do
        guard (port_in_range port) bad_port
        guard (not (r.ssh_user =s= "")) no_ssh_user
        guard (not (r.ssh_password =s= "" && trim_space r.ssh_key_file =s= "")) no_ssh_auth
        ok (record r { port = port })

  abbrev pub validate_platform : ProvisionRequest → Result InvalidRequest ProvisionRequest
  validate_platform r = if r.platform =s= "linux" then validate_linux r else validate_windows r

  abbrev pub checked : ProvisionRequest → Result InvalidRequest ProvisionRequest
  checked r = do
    guard (one_of "windows" "linux" r.platform) bad_platform
    guard (matches_all is_host_char r.host) bad_host
    guard (not (r.node_name =s= "")) no_node_name
    guard (matches_all is_name_char r.node_name) bad_node_name
    validate_platform r

  -- Validate, with the request that it leaves
  unfoldable pub validate : ProvisionRequest → Result InvalidRequest ProvisionRequest
  unfolding validate_windows validate_linux
  validate r = checked (record r { platform = or_default "windows" (to_lower r.platform) })
