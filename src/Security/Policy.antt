-- ===== src/Security/Policy.antt =====
-- The command and path policy of src/security/pairing.c, and src/net_security.c.
pub mod Commands
pub mod Paths
mod Tests
use tiniclaw.Base.{
  ℕ, Bool, true, false, not, ◌&&◌, ◌||◌, Option, none, some, List, [], ◌∷◌, Bytes, codes, length,
  drop, take, clip, str_eq, starts_with, ◌==◌, if◌then◌else◌,
}

pub data AutonomyLevel : Type 0 where
  supervised standard full : AutonomyLevel

pub data CommandRisk : Type 0 where
  low medium high : CommandRisk

pub record SecurityPolicy : Type 0 where
  pub autonomy : AutonomyLevel
  pub workspace_only : Bool
  pub shell_allowlist : Option (List Bytes)
  pub path_allowlist : Option (List Bytes)
  pub max_actions_per_hour : ℕ
  pub max_output_bytes : ℕ

abbrev pub high_risk_cmds : List Bytes
high_risk_cmds =
    codes "rm"
    ∷ codes "rmdir"
    ∷ codes "dd"
    ∷ codes "mkfs"
    ∷ codes "format"
    ∷ codes "shutdown"
    ∷ codes "reboot"
    ∷ codes "halt"
    ∷ codes "chmod"
    ∷ codes "chown"
    ∷ codes "sudo"
    ∷ codes "su"
    ∷ codes "passwd"
    ∷ codes "useradd"
    ∷ codes "userdel"
    ∷ codes "iptables"
    ∷ codes "ufw"
    ∷ codes "firewall-cmd"
    ∷ codes "kill"
    ∷ codes "pkill"
    ∷ codes "killall"
    ∷ codes "curl"
    ∷ codes "wget"
    ∷ codes "nc"
    ∷ codes "netcat"
    ∷ codes "ncat"
    ∷ codes "ssh"
    ∷ codes "scp"
    ∷ codes "rsync"
    ∷ []

abbrev pub medium_risk_cmds : List Bytes
medium_risk_cmds =
    codes "cp"
    ∷ codes "mv"
    ∷ codes "ln"
    ∷ codes "find"
    ∷ codes "grep"
    ∷ codes "sed"
    ∷ codes "awk"
    ∷ codes "perl"
    ∷ codes "python"
    ∷ codes "node"
    ∷ codes "npm"
    ∷ codes "pip"
    ∷ codes "brew"
    ∷ codes "apt"
    ∷ codes "yum"
    ∷ codes "dnf"
    ∷ codes "git"
    ∷ codes "make"
    ∷ []

-- `strrchr(s, '/')`, as what stands behind it.
pub behind_last_slash : Bytes → Option Bytes
behind_last_slash [] = none
behind_last_slash (c ∷ s) = elim (behind_last_slash s) [
  | some r ↦ some r
  | none ↦ if c == b'/' then some s else none
]

pub base_of : Bytes → Bytes
unfolding behind_last_slash
base_of cmd = elim (behind_last_slash cmd) [ some r ↦ r | none ↦ cmd ]

-- Up to the first space.
pub first_word : Bytes → Bytes
first_word [] = []
first_word (c ∷ s) = let rest = first_word s in if c == 32 then [] else c ∷ rest

-- The loop over a table of names.
pub listed : Bytes → List Bytes → Bool
listed name [] = false
listed name (n ∷ ns) = str_eq name n || listed name ns

pub risk_in : List Bytes → List Bytes → Bytes → CommandRisk
risk_in highs mediums name =
    if listed name highs then high else if listed name mediums then medium else low

pub risk_of : Bytes → CommandRisk
unfolding listed risk_in
risk_of = risk_in high_risk_cmds medium_risk_cmds

-- The policy is not looked at. The name is copied through a `char name[64]`.
unfoldable pub classify_command : Option SecurityPolicy → Option Bytes → CommandRisk
classify_command p none = low
classify_command p (some cmd) = risk_of (first_word (clip 64 (base_of cmd)))

-- The loop of `nc_check_null_byte`: `*path` is never NUL inside it.
pub finds_null : Bytes → Bool
finds_null [] = false
finds_null (c ∷ s) = if c == 0 then true else finds_null s

unfoldable pub check_null_byte : Option Bytes → Bool
unfolding finds_null
check_null_byte none = true
check_null_byte (some path) = finds_null path

-- `path[n] == '/' || path[n] == '\0'`, of a path with at least `n` bytes.
pub ends_component : Bytes → Bool
ends_component [] = true
ends_component (c ∷ s) = c == b'/'

-- `none` is a NULL pointer throughout.
unfoldable pub is_path_allowed : Option SecurityPolicy → Option Bytes → Option Bytes → Bool
unfolding check_null_byte ends_component
is_path_allowed none workspace path = false
is_path_allowed (some p) workspace none = false
is_path_allowed (some p) none (some path) =
    if check_null_byte (some path) then false else not p.workspace_only
is_path_allowed (some p) (some workspace) (some path) =
    if check_null_byte (some path)
    then false
    else if not p.workspace_only
    then true
    else starts_with workspace path && ends_component (drop (length workspace) path)

-- The policy literal of `nc_check_symlink_escape`: the other fields are zero.
abbrev pub workspace_policy : SecurityPolicy
workspace_policy = record {
  autonomy = supervised;
  workspace_only = true;
  shell_allowlist = none;
  path_allowlist = none;
  max_actions_per_hour = 0;
  max_output_bytes = 0;
}

unfoldable pub check_symlink_escape : Option Bytes → Option Bytes → Bool
check_symlink_escape none resolved = false
check_symlink_escape (some workspace) none = false
check_symlink_escape (some workspace) (some resolved) =
    not (is_path_allowed (some workspace_policy) (some workspace) (some resolved))

unfoldable pub url_is_http_insecure : Option Bytes → Bool
url_is_http_insecure none = false
url_is_http_insecure (some url) = starts_with (codes "http://") url

unfoldable pub url_is_valid_https : Option Bytes → Bool
url_is_valid_https none = false
url_is_valid_https (some url) = starts_with (codes "https://") url
