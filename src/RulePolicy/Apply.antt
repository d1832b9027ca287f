-- ===== src/RulePolicy/Apply.antt =====
-- `apply_policy` of zimascoped/src/collector/aya.rs: the operations on the kernel's maps, one after
-- another, up to the first that fails. The eight match maps are one map, since an entry names its
-- kind and direction; the capacity holds for each of the eight, as in zimascope-ebpf/src/maps.rs. As
-- is documented of BPF maps, removing a key that is not in a map fails, and so does inserting a new
-- key into a full one; the key of a prefix trie is the prefix, whatever the address has behind it.
pub mod Track
pub mod Rates
pub mod Upserts
pub mod Removals
pub mod Additions
pub mod States
pub mod Settled
pub mod Kept
pub mod Refines
pub mod Sequence
use zima_scope.Abi.{
  RuleRef, RuleState, BucketKey, PolicyConfig, BucketKey-discrete, default_traffic_rule_capacity,
}
use zima_scope.Base.Assoc.{get, insert, remove}
use zima_scope.Base.{
  ℕ, ◌+◌, ◌-◌, ◌*◌, ◌/◌, ◌^◌, Bool, true, false, ◌&&◌, ◌||◌, Option, some, none, List, [], ◌∷◌,
  ◌>>=◌, ltb, leb, ◌==◌, if◌then◌else◌, length,
}
use zima_scope.RulePolicy.Compile.{tier_index}
use zima_scope.RulePolicy.Rules.{
  MatchEntry, app_cgroup, app_comm, endpoint_exact, endpoint_cidr, MatchEntry-discrete, PolicyOp,
  set_enabled, upsert_state, remove_state, upsert_match, remove_match,
}

pub record KernelMaps : Type 0 where
  pub config : Option PolicyConfig
  pub states : List (BucketKey × RuleState)
  pub matches : List (MatchEntry × RuleRef)

abbrev pub as_u8 : Bool → ℕ
as_u8 b = if b then 1 else 0

unfoldable pub config_value : Bool → Bool → Bool → ℕ → PolicyConfig
config_value enabled app_rules endpoint_rules revision = record {
  enabled = as_u8 enabled;
  app_rules = as_u8 app_rules;
  endpoint_rules = as_u8 endpoint_rules;
  revision = revision;
}

abbrev pub default_state : RuleState
default_state = record {
  rate_bytes_per_s = 0;
  burst_bytes = 0;
  tokens = 0;
  last_refill_mono_ns = 0;
  matched_packets = 0;
  matched_bytes = 0;
  dropped_packets = 0;
  dropped_bytes = 0;
}

-- An existing state keeps its tokens and counters; a new one starts full.
unfoldable pub updated_state : Option RuleState → ℕ → ℕ → RuleState
updated_state none rate burst = record default_state {
  rate_bytes_per_s = rate;
  burst_bytes = burst;
  tokens = burst;
}
updated_state (some old) rate burst = record old { rate_bytes_per_s = rate; burst_bytes = burst }

abbrev pub rule_state_capacity : ℕ
rule_state_capacity = default_traffic_rule_capacity * 2

abbrev pub present {ℓ} : {A : Type ℓ} → Option A → Bool
present none = false
present (some value) = true

-- How many entries the map of one kind and direction has.
abbrev pub entries_of : ℕ → List (MatchEntry × RuleRef) → ℕ
entries_of tier [] = 0
entries_of tier ((e, rule) ∷ entries) =
    (if tier_index e == tier then 1 else 0) + entries_of tier entries

-- Whether the map of the entry takes it: the entry is there, or the map is not full.
unfoldable pub has_room : MatchEntry → List (MatchEntry × RuleRef) → Bool
has_room e entries =
    present (get MatchEntry-discrete e entries)
    || ltb (entries_of (tier_index e) entries) default_traffic_rule_capacity

unfoldable pub has_state_room : BucketKey → List (BucketKey × RuleState) → Bool
has_state_room key states =
    present (get BucketKey-discrete key states) || ltb (length states) rule_state_capacity

-- The first bits of an address, the others cleared.
abbrev pub masked : ℕ → List ℕ → List ℕ
masked bits [] = []
masked bits (b ∷ addr) =
    let rest = masked (bits - 8) addr in
    (if leb 8 bits then b else b / 2 ^ (8 - bits) * 2 ^ (8 - bits)) ∷ rest

-- The key under which a map holds an entry: of an `LpmKey`, only the prefix counts.
unfoldable pub trie_key : MatchEntry → MatchEntry
trie_key (app_cgroup direction cgroup_id) = app_cgroup direction cgroup_id
trie_key (app_comm direction comm) = app_comm direction comm
trie_key (endpoint_exact direction key) = endpoint_exact direction key
trie_key (endpoint_cidr direction prefix_len addr) =
    endpoint_cidr direction prefix_len (masked prefix_len addr)

-- An insertion, which fails where it would add to a full map.
unfoldable pub insert_match : KernelMaps → MatchEntry → RuleRef → Option KernelMaps
insert_match k e rule =
    if has_room e k.matches
    then some (record k { matches = insert MatchEntry-discrete e rule k.matches })
    else none

unfoldable pub delete_match : KernelMaps → MatchEntry → Option KernelMaps
delete_match k e = elim (get MatchEntry-discrete e k.matches) [
  | none ↦ none
  | some old ↦ some (record k { matches = remove MatchEntry-discrete e k.matches })
]

unfoldable pub insert_state : KernelMaps → BucketKey → RuleState → Option KernelMaps
insert_state k key state =
    if has_state_room key k.states
    then some (record k { states = insert BucketKey-discrete key state k.states })
    else none

unfoldable pub apply_op : KernelMaps → PolicyOp → Option KernelMaps
apply_op k (set_enabled enabled app_rules endpoint_rules revision) =
    some (record k { config = some (config_value enabled app_rules endpoint_rules revision) })
apply_op k (upsert_state key rate burst) =
    insert_state k key (updated_state (get BucketKey-discrete key k.states) rate burst)
apply_op k (remove_state key) = elim (get BucketKey-discrete key k.states) [
  | none ↦ none
  | some old ↦ some (record k { states = remove BucketKey-discrete key k.states })
]
apply_op k (upsert_match e rule) = insert_match k (trie_key e) rule
apply_op k (remove_match e) = delete_match k (trie_key e)

unfoldable pub apply_ops : KernelMaps → List PolicyOp → Option KernelMaps
apply_ops k [] = some k
apply_ops k (op ∷ ops) = do k' ← apply_op k op; apply_ops k' ops

-- Whether the address of a prefix has no bit set behind the prefix.
abbrev pub is_prefix : MatchEntry → Bool
is_prefix e = elim (MatchEntry-discrete (trie_key e) e) [ yes same ↦ true | no other ↦ false ]

-- Whether an operation finds room for what it inserts, and names a prefix by its own bits.
unfoldable pub fits_op : KernelMaps → PolicyOp → Bool
fits_op k (set_enabled enabled app_rules endpoint_rules revision) = true
fits_op k (upsert_state key rate burst) = has_state_room key k.states
fits_op k (remove_state key) = true
fits_op k (upsert_match e rule) = is_prefix e && has_room e k.matches
fits_op k (remove_match e) = is_prefix e

-- Whether each operation does so, on the maps that those before it leave.
unfoldable pub fits : KernelMaps → List PolicyOp → Bool
fits k [] = true
fits k (op ∷ ops) = fits_op k op && elim (apply_op k op) [ none ↦ true | some k' ↦ fits k' ops ]
