-- ===== src/RulePolicy/Rules.antt =====
-- The rules of zimascoped/src/policy/mod.rs: what a user writes, what the kernel maps accept, and the
-- operations between two programs.
use native.Mathlib.Decide.{ℕ_discrete}
use zima_scope.Abi.{Direction, RuleAction, RuleRef, BucketKey, EndpointMatchKey}
use zima_scope.Base.{
  ℕ, Bool, true, false, not, ◌&&◌, ◌||◌, Option, some, none, List, [], ◌∷◌, leb, ◌==◌,
  if◌then◌else◌, min,
}
use zima_scope.RulePolicy.Selectors.{
  Reason, Result, ok, err, Selector, rate_out_of_range, burst_zero,
}

abbrev pub max_traffic_rules : ℕ
max_traffic_rules = 64

abbrev pub min_rate_bytes_per_s : ℕ
min_rate_bytes_per_s = 4096

abbrev pub max_rate_bytes_per_s : ℕ
max_rate_bytes_per_s = 10737418240

pub data RuleDirection : Type 0 where
  inbound outbound both : RuleDirection

abbrev pub directions : RuleDirection → List Direction
directions inbound = Direction.inbound ∷ []
directions outbound = Direction.outbound ∷ []
directions both = Direction.inbound ∷ Direction.outbound ∷ []

pub data ActionSpec : Type 0 where
  limit : ℕ → ℕ → ActionSpec
  block : ActionSpec

abbrev pub action : ActionSpec → RuleAction
action (limit rate burst) = RuleAction.limit
action block = RuleAction.block

abbrev pub rates : ActionSpec → ℕ × ℕ
rates (limit rate burst) = (rate, burst)
rates block = (0, 0)

unfoldable pub validate_action : ActionSpec → Result (Unit {0})
validate_action (limit rate burst) =
    if not (leb min_rate_bytes_per_s rate && leb rate max_rate_bytes_per_s)
    then err rate_out_of_range
    else if burst == 0
    then err burst_zero
    else ok tt
validate_action block = ok tt

pub record TrafficRule : Type 0 where
  pub id : ℕ
  pub action : ActionSpec
  pub direction : RuleDirection
  pub selector : Selector
  pub enabled : Bool

pub record UnresolvedRule : Type 0 where
  pub rule_id : ℕ
  pub reason : Reason

pub data MatchEntry : Type 0 where
  app_cgroup : Direction → ℕ → MatchEntry
  app_comm : Direction → List ℕ → MatchEntry
  endpoint_exact : Direction → EndpointMatchKey → MatchEntry
  endpoint_cidr : Direction → ℕ → List ℕ → MatchEntry

-- The derived `Eq`.
unfoldable pub MatchEntry-discrete : Discrete MatchEntry
MatchEntry-discrete = hlevel ℕ_discrete

pub record CompiledState : Type 0 where
  pub key : BucketKey
  pub rate_bytes_per_s : ℕ
  pub burst_bytes : ℕ

pub record CompiledRule : Type 0 where
  pub id : ℕ
  pub action : RuleAction
  pub matches : List MatchEntry
  pub states : List CompiledState

pub record CompiledPolicy : Type 0 where
  pub revision : ℕ
  pub enabled : Bool
  pub rules : List CompiledRule

pub record CompiledProgram : Type 0 where
  pub policy : CompiledPolicy
  pub unresolved : List UnresolvedRule

pub data PolicyOp : Type 0 where
  set_enabled : Bool → Bool → Bool → ℕ → PolicyOp
  upsert_state : BucketKey → ℕ → ℕ → PolicyOp
  remove_state : BucketKey → PolicyOp
  upsert_match : MatchEntry → RuleRef → PolicyOp
  remove_match : MatchEntry → PolicyOp

-- `CompiledPolicy::rule`.
abbrev pub find_rule : List CompiledRule → ℕ → Option CompiledRule
find_rule [] id = none
find_rule (r ∷ rs) id = if r.id == id then some r else find_rule rs id

abbrev pub is_app_entry : MatchEntry → Bool
is_app_entry (app_cgroup direction cgroup_id) = true
is_app_entry (app_comm direction comm) = true
is_app_entry (endpoint_exact direction key) = false
is_app_entry (endpoint_cidr direction prefix_len addr) = false

abbrev pub any {ℓ} : {A : Type ℓ} → (A → Bool) → List A → Bool
any p [] = false
any p (x ∷ xs) = p x || any p xs

unfoldable pub has_app_rules : CompiledPolicy → Bool
has_app_rules p = any (λ (r : CompiledRule). any is_app_entry r.matches) p.rules

unfoldable pub has_endpoint_rules : CompiledPolicy → Bool
has_endpoint_rules p = any (λ (r : CompiledRule). any (λ e. not (is_app_entry e)) r.matches) p.rules

unfoldable pub config_op : CompiledPolicy → Bool → PolicyOp
config_op p enabled =
    set_enabled enabled (has_app_rules p) (has_endpoint_rules p) (min p.revision 4294967295)
