-- ===== src/Worker/Policy.antt =====
-- internal/worker/policy.go: the policy of a worker, with the test of targets of ssh_policy.go.
use topo.Prelude.{
  ℕ, ◌*◌, ◌/◌, Bool, true, false, not, ◌&&◌, ◌||◌, ◌==◌, String, str_eq, codes, Option, none, some,
  List, [], ◌∷◌, ◌++◌, map, any, length, ltb, if◌then◌else◌, ℤ, pos, to_ℕ, is_zero, lt_ℕ, gt_ℕ,
  sort_slice, bytes_less,
}
use topo.Mid.Records.{is_hex}
use topo.Worker.Ids.{safe_id}
use topo.Worker.Prefix.{Addr, Prefix, contains, masked}

abbrev pub max_allowlist_cidrs : ℕ
max_allowlist_cidrs = 256

abbrev pub sha256_hex_length : ℕ
sha256_hex_length = 64

abbrev pub second : ℕ
second = 1000000000

-- Policy, with durations in nanoseconds.
pub record Policy : Type 0 where
  pub worker_pool : String
  pub site_id : String
  pub allow_local : Bool
  pub allow_ssh_linux : Bool
  pub allow_winrm_windows : Bool
  pub winrm_allowlist : List Prefix
  pub winrm_trust_digest : String
  pub ssh_allowlist : List Prefix
  pub ssh_host_key_digest : String
  pub max_task_duration : ℤ
  pub max_concurrency : ℤ
  pub remote_start_interval : ℤ

-- What an empty setting stands for.
abbrev or_default : ℤ → ℕ → ℤ
or_default value default = if is_zero value then pos default else value

unfoldable pub concurrency : Policy → ℤ
concurrency p = or_default p.max_concurrency 1

unfoldable pub task_duration : Policy → ℤ
task_duration p = or_default p.max_task_duration (30 * second)

unfoldable pub start_interval : Policy → ℤ
start_interval p = or_default p.remote_start_interval second

-- `hex.DecodeString` fails on any other digit.
abbrev pub is_sha256_hex : String → Bool
is_sha256_hex s = length (codes s) == sha256_hex_length && not (any (λ c. not (is_hex c)) (codes s))

abbrev pub same_prefix : Prefix → Prefix → Bool
same_prefix p q = (if p.is4 then q.is4 else not q.is4) && p.addr == q.addr && p.bits == q.bits

-- The prefixes of netip have no zone.
abbrev pub is_canonical4 : Prefix → Bool
is_canonical4 p = p.is4 && same_prefix p (masked p)

-- The data of one remote operation: an allowlist and the digest of its trust.
abbrev pub remote_ok : Bool → List Prefix → String → Bool
remote_ok true allowlist digest =
    not (length allowlist == 0 || ltb max_allowlist_cidrs (length allowlist))
    && not (any (λ p. not (is_canonical4 p)) allowlist)
    && is_sha256_hex digest
remote_ok false allowlist digest = length allowlist == 0 && str_eq digest ""

abbrev within : ℤ → ℕ → ℕ → Bool
within value low high = not (lt_ℕ value low || gt_ℕ value high)

unfoldable pub validate : Policy → Bool
unfolding start_interval task_duration concurrency
validate p =
    safe_id p.worker_pool
    && safe_id p.site_id
    && (p.allow_local || p.allow_ssh_linux || p.allow_winrm_windows)
    && remote_ok p.allow_ssh_linux p.ssh_allowlist p.ssh_host_key_digest
    && remote_ok p.allow_winrm_windows p.winrm_allowlist p.winrm_trust_digest
    && within (start_interval p) 100000000 (60 * second)
    && within (task_duration p) second (600 * second)
    && within (concurrency p) 1 32

-- The operations that are compiled in.
pub data Operation : Type 0 where
  local_v1 ssh_linux_v1 winrm_windows_v1 : Operation

abbrev when : Bool → Operation → List Operation
when true operation = operation ∷ []
when false operation = []

unfoldable pub capabilities : Policy → List Operation
capabilities p =
    when p.allow_local local_v1
    ++ (when p.allow_ssh_linux ssh_linux_v1 ++ when p.allow_winrm_windows winrm_windows_v1)

-- `targetAllowed`
unfoldable pub target_allowed : Addr → List Prefix → Bool
target_allowed target allowlist = target.is4 && any (λ prefix. contains prefix target) allowlist

-- The fields that `Digest` encodes.
pub record PolicyJson : Type 0 where
  pub remote_start_milliseconds : ℕ
  pub worker_pool : String
  pub site_id : String
  pub operations : List Operation
  pub max_task_seconds : ℕ
  pub max_concurrency : ℕ
  pub ssh_allowlist : List String
  pub ssh_host_key_digest : String
  pub winrm_allowlist : List String
  pub winrm_trust_digest : String

-- `Prefix.String`, and the SHA-256 of the JSON.
pub record PolicyText : Type 0 where
  pub format_prefix : Prefix → String
  pub json_hash : PolicyJson → String

abbrev text_less : String → String → Bool
text_less a b = bytes_less (codes a) (codes b)

module _ (text : PolicyText) where
  unfoldable pub canonical_prefix_strings : List Prefix → List String
  canonical_prefix_strings prefixes = sort_slice text_less (map text.format_prefix prefixes)

  -- What the digest is of: a validated policy has no negative duration.
  unfoldable pub encoded_policy : Policy → PolicyJson
  unfolding canonical_prefix_strings capabilities start_interval task_duration concurrency
  encoded_policy p = record {
    remote_start_milliseconds = to_ℕ (start_interval p) / 1000000;
    worker_pool = p.worker_pool;
    site_id = p.site_id;
    operations = capabilities p;
    max_task_seconds = to_ℕ (task_duration p) / second;
    max_concurrency = to_ℕ (concurrency p);
    ssh_allowlist = canonical_prefix_strings p.ssh_allowlist;
    ssh_host_key_digest = p.ssh_host_key_digest;
    winrm_allowlist = canonical_prefix_strings p.winrm_allowlist;
    winrm_trust_digest = p.winrm_trust_digest;
  }

  unfoldable pub digest : Policy → Option String
  unfolding encoded_policy validate
  digest p = if validate p then some (text.json_hash (encoded_policy p)) else none
