-- ===== src/Query/Resolving.antt =====
-- `SystemEvidenceResolver` of zimascoped/src/query/resolver.rs, over the cgroup index. What a walk of the
-- cgroup tree would find, the time, and the stored names of processes are arguments.
use zima_scope.Base.{
  ℕ, ◌-◌, Bool, true, false, Option, some, none, List, [], ◌∷◌, ◌++◌, ltb, if◌then◌else◌, map, take,
  drop, replicate, length, min,
}
use zima_scope.Fingerprints.Library.{text_lt}
use zima_scope.Fingerprints.Match.{same_bytes}
use zima_scope.Model.{v4, v6}
use zima_scope.Query.Containers.{CgroupIndex, inodes_for_container}
use zima_scope.RulePolicy.Selectors.{
  Selector, MatchTarget, endpoint, cidr, app_cgroup, app_comm, complete, unresolved, Resolution,
  is_prefix, cont_prefix, proc_prefix, comm_prefix,
}

-- The messages of unresolved selectors: a parameter, since they are only shown.
pub record Messages : Type 0 where
  pub ipv6_later : List ℕ
  pub empty_name : List ℕ
  pub no_directory : List ℕ → List ℕ
  pub no_stored_name : List ℕ → List ℕ
  pub no_known_prefix : List ℕ → List ℕ

-- The derived order of `MatchTarget`: by the kind, then by the fields in order.
abbrev pub kind_rank : MatchTarget → ℕ
kind_rank (endpoint address port) = 0
kind_rank (cidr address prefix_len) = 1
kind_rank (app_cgroup cgroup_id) = 2
kind_rank (app_comm comm) = 3

abbrev pub port_lt : Option ℕ → Option ℕ → Bool
port_lt none none = false
port_lt none (some b) = true
port_lt (some a) none = false
port_lt (some a) (some b) = ltb a b

abbrev pub pair_lt : List ℕ → List ℕ → Bool → Bool
pair_lt a b rest = if text_lt a b then true else if same_bytes a b then rest else false

unfoldable pub target_lt : MatchTarget → MatchTarget → Bool
target_lt (endpoint a p) (endpoint b q) = pair_lt a b (port_lt p q)
target_lt (cidr a m) (cidr b n) = pair_lt a b (ltb m n)
target_lt (app_cgroup a) (app_cgroup b) = ltb a b
target_lt (app_comm a) (app_comm b) = text_lt a b
target_lt t u = ltb (kind_rank t) (kind_rank u)

-- `sort_unstable` and `dedup`: the targets in order, each once.
unfoldable pub insert_target : MatchTarget → List MatchTarget → List MatchTarget
insert_target t [] = t ∷ []
insert_target t (u ∷ us) =
    let rest = insert_target t us in
    if target_lt t u then t ∷ u ∷ us else if target_lt u t then u ∷ rest else u ∷ us

unfoldable pub sorted_targets : List MatchTarget → List MatchTarget
sorted_targets [] = []
sorted_targets (t ∷ ts) = insert_target t (sorted_targets ts)

unfoldable pub complete_with : List MatchTarget → Resolution
complete_with targets = record { targets = sorted_targets targets; coverage = complete }

abbrev pub unresolved_for : List ℕ → Resolution
unresolved_for reason = record { targets = []; coverage = unresolved reason }

-- `comm_bytes` of zimascope-common/src/model.rs: at most 15 bytes, and zeros up to 16.
unfoldable pub comm_bytes : List ℕ → List ℕ
comm_bytes comm = let length = min (length comm) 15 in take length comm ++ replicate (16 - length) 0

abbrev pub is_empty : {A : Type 0} → List A → Bool
is_empty [] = true
is_empty (x ∷ xs) = false

module _ (messages : Messages) (stored_comm : List ℕ → Option (List ℕ)) where
  unfoldable pub resolve_comm : List ℕ → Resolution
  resolve_comm comm =
      if is_empty comm
      then unresolved_for messages.empty_name
      else complete_with (app_comm (comm_bytes comm) ∷ [])

  unfoldable pub resolve_inodes : List ℕ → List ℕ → Resolution
  resolve_inodes container [] = unresolved_for (messages.no_directory container)
  resolve_inodes container (inode ∷ inodes) = complete_with (map app_cgroup (inode ∷ inodes))

  unfoldable pub resolve_process : List ℕ → Resolution
  resolve_process id = elim (stored_comm id) [
    | none ↦ unresolved_for (messages.no_stored_name id)
    | some comm ↦ complete_with (app_comm (comm_bytes comm) ∷ [])
  ]

  -- `application`: the index afterwards and the resolution.
  unfoldable pub resolve_application_id :
      CgroupIndex → List (ℕ × Option (List ℕ)) → ℕ → List ℕ → CgroupIndex × Resolution
  resolve_application_id index walked now id =
      if is_prefix comm_prefix id
      then (index, resolve_comm (drop (length comm_prefix) id))
      else if is_prefix cont_prefix id
      then (let container = drop (length cont_prefix) id in
          let (index', inodes) = inodes_for_container index walked now container in
          (index', resolve_inodes container inodes))
      else if is_prefix proc_prefix id
      then (index, resolve_process id)
      else (index, unresolved_for (messages.no_known_prefix id))

  unfoldable pub resolve :
      CgroupIndex → List (ℕ × Option (List ℕ)) → ℕ → Selector → CgroupIndex × Resolution
  resolve index walked now (Selector.endpoint (v4 octets) port) =
      (index, complete_with (endpoint octets port ∷ []))
  resolve index walked now (Selector.cidr (v4 octets) prefix_len) =
      (index, complete_with (cidr octets prefix_len ∷ []))
  resolve index walked now (Selector.endpoint (v6 octets) port) =
      (index, unresolved_for messages.ipv6_later)
  resolve index walked now (Selector.cidr (v6 octets) prefix_len) =
      (index, unresolved_for messages.ipv6_later)
  resolve index walked now (Selector.application id) = resolve_application_id index walked now id
