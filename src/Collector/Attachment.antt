-- ===== src/Collector/Attachment.antt =====
-- The hooks of zimascoped/src/collector/aya.rs: attaching and detaching the packet programs of the
-- interfaces. A link is the number of the attempt that made it. Whether an attempt succeeds, whether
-- a qdisc can be added and the text of an error are arguments, and so is the resolved boundary.
pub mod Ledger
pub mod Distinct
pub mod Gains
pub mod Detaching
pub mod Entries
pub mod Kept
pub mod Retried
use zima_scope.Base.{
  ℕ, ◌+◌, Bool, true, false, not, ◌&&◌, ◌||◌, Option, some, none, List, [], ◌∷◌, ◌++◌, ltb, ◌==◌,
  if◌then◌else◌,
}
use zima_scope.Model.Health.{InterfaceHealth}

pub record AttachedInterface : Type 0 where
  pub ifindex : ℕ
  pub name : List ℕ
  pub tcx : Bool
  pub ingress : Option ℕ
  pub egress : Option ℕ
  pub last_error : Option (List ℕ)

-- How many attachments were tried, and the links on which `detach` was called.
pub record Hooks : Type 0 where
  pub attempts : ℕ
  pub detached : List ℕ

unfoldable pub detach_link : Hooks → Option ℕ → Hooks
detach_link hooks none = hooks
detach_link hooks (some link) = record hooks { detached = link ∷ hooks.detached }

unfoldable pub detach_links : Hooks → AttachedInterface → Hooks
detach_links hooks a = detach_link (detach_link hooks a.ingress) a.egress

unfoldable pub detach_all : Hooks → List AttachedInterface → Hooks
detach_all hooks [] = hooks
detach_all hooks (a ∷ attached) = detach_all (detach_links hooks a) attached

abbrev pub has_index : ℕ → List AttachedInterface → Bool
has_index ifindex [] = false
has_index ifindex (a ∷ attached) = a.ifindex == ifindex || has_index ifindex attached

abbrev pub is_wanted : ℕ → List (ℕ × List ℕ) → Bool
is_wanted ifindex [] = false
is_wanted ifindex ((i, name) ∷ interfaces) = i == ifindex || is_wanted ifindex interfaces

-- The entries by index; of two with one index the later stays.
unfoldable pub collect : List AttachedInterface → List AttachedInterface
collect [] = []
collect (a ∷ attached) =
    let rest = collect attached in if has_index a.ifindex rest then rest else a ∷ rest

unfoldable pub find_index : ℕ → List AttachedInterface → Option AttachedInterface
find_index ifindex [] = none
find_index ifindex (a ∷ attached) =
    let rest = find_index ifindex attached in if a.ifindex == ifindex then some a else rest

unfoldable pub drop_index : ℕ → List AttachedInterface → List AttachedInterface
drop_index ifindex [] = []
drop_index ifindex (a ∷ attached) =
    let rest = drop_index ifindex attached in if a.ifindex == ifindex then rest else a ∷ rest

-- The `retain` of `reconcile`.
unfoldable pub retain_wanted :
    Hooks → List (ℕ × List ℕ) → List AttachedInterface → Hooks × List AttachedInterface
retain_wanted hooks interfaces [] = (hooks, [])
retain_wanted hooks interfaces (a ∷ current) =
    let (hooks', rest) = retain_wanted hooks interfaces current in
    if is_wanted a.ifindex interfaces then (hooks', a ∷ rest) else (detach_links hooks' a, rest)

abbrev pub is_some : {A : Type 0} → Option A → Bool
is_some none = false
is_some (some value) = true

abbrev pub is_healthy : AttachedInterface → Bool
is_healthy a = is_some a.ingress && is_some a.egress

unfoldable pub insert_by_index : AttachedInterface → List AttachedInterface → List AttachedInterface
insert_by_index a [] = a ∷ []
insert_by_index a (b ∷ bs) =
    let rest = insert_by_index a bs in if ltb b.ifindex a.ifindex then b ∷ rest else a ∷ b ∷ bs

unfoldable pub sort_by_index : List AttachedInterface → List AttachedInterface
sort_by_index [] = []
sort_by_index (a ∷ attached) = insert_by_index a (sort_by_index attached)

module _ (accepts : ℕ → Bool) (add_qdisc : List ℕ → Bool) (error_text : List ℕ → List ℕ) where
  unfoldable pub attach_hook : Hooks → Hooks × Option ℕ
  attach_hook hooks = (
    record hooks { attempts = hooks.attempts + 1 },
    if accepts hooks.attempts then some hooks.attempts else none,
  )

  -- The second hook of `attach_one`; where it fails, the first is detached.
  unfoldable pub attach_egress : Hooks → ℕ → ℕ → List ℕ → Bool → Hooks × Option AttachedInterface
  attach_egress hooks ingress ifindex name tcx =
      let (hooks', egress) = attach_hook hooks in
      elim egress [
        | none ↦ (detach_link hooks' (some ingress), none)
        | some link ↦ (
          hooks',
          some (record {
            ifindex = ifindex;
            name = name;
            tcx = tcx;
            ingress = some ingress;
            egress = some link;
            last_error = none;
          }),
        )
      ]

  unfoldable pub attach_one : Hooks → ℕ → List ℕ → Bool → Hooks × Option AttachedInterface
  attach_one hooks ifindex name tcx =
      if not tcx && not (add_qdisc name)
      then (hooks, none)
      else let (hooks', ingress) = attach_hook hooks in
        elim ingress [
          | none ↦ (hooks', none)
          | some link ↦ attach_egress hooks' link ifindex name tcx
        ]

  -- `attach_interfaces`, with what is attached so far.
  unfoldable pub attach_interfaces :
      Hooks
      → List AttachedInterface
      → List (ℕ × List ℕ)
      → Bool
      → Hooks × Option (List AttachedInterface)
  attach_interfaces hooks attached [] tcx = (hooks, some attached)
  attach_interfaces hooks attached ((ifindex, name) ∷ interfaces) tcx =
      let (hooks', result) = attach_one hooks ifindex name tcx in
      elim result [
        | none ↦ (detach_all hooks' attached, none)
        | some a ↦ attach_interfaces hooks' (attached ++ (a ∷ [])) interfaces tcx
      ]

  abbrev pub failed_entry : ℕ → List ℕ → Bool → AttachedInterface
  failed_entry ifindex name tcx = record {
    ifindex = ifindex;
    name = name;
    tcx = tcx;
    ingress = none;
    egress = none;
    last_error = some (error_text name);
  }

  abbrev pub or_failed : Option AttachedInterface → AttachedInterface → AttachedInterface
  or_failed none entry = entry
  or_failed (some a) entry = a

  -- The end of a round of the loop, after which no entry has the index.
  unfoldable pub attach_entry :
      Hooks → List AttachedInterface → ℕ → List ℕ → Bool → Hooks × List AttachedInterface
  attach_entry hooks current ifindex name tcx =
      let (hooks', result) = attach_one hooks ifindex name tcx in
      (hooks', or_failed result (failed_entry ifindex name tcx) ∷ current)

  unfoldable pub ensure :
      Hooks → List AttachedInterface → ℕ → List ℕ → Bool → Hooks × List AttachedInterface
  ensure hooks current ifindex name tcx = elim (find_index ifindex current) [
    | none ↦ attach_entry hooks current ifindex name tcx
    | some a ↦
        if is_healthy a
        then (hooks, current)
        else attach_entry (detach_links hooks a) (drop_index ifindex current) ifindex name tcx
  ]

  unfoldable pub ensure_all :
      Hooks → List AttachedInterface → List (ℕ × List ℕ) → Bool → Hooks × List AttachedInterface
  ensure_all hooks current [] tcx = (hooks, current)
  ensure_all hooks current ((ifindex, name) ∷ interfaces) tcx =
      let (hooks', current') = ensure hooks current ifindex name tcx in
      ensure_all hooks' current' interfaces tcx

  -- `reconcile`, where the boundary could be resolved.
  unfoldable pub reconcile :
      Hooks → List AttachedInterface → List (ℕ × List ℕ) → Bool → Hooks × List AttachedInterface
  reconcile hooks attached interfaces tcx =
      let (retained, kept) = retain_wanted hooks interfaces (collect attached) in
      let (hooks', current) = ensure_all retained kept interfaces tcx in
      (hooks', sort_by_index current)

-- `attachment_health` on one interface, with what `verify_tcx` says of each hook: whether the program
-- is there, or the text of an error. `gone` are the texts for a program that is not there.
abbrev pub hook_ok : Option Bool → Bool
hook_ok none = false
hook_ok (some there) = there

abbrev pub hook_error : Option Bool → List ℕ → List ℕ → List (List ℕ) → List (List ℕ)
hook_error none failed gone errors = failed ∷ errors
hook_error (some true) failed gone errors = errors
hook_error (some false) failed gone errors = gone ∷ errors

abbrev pub first_of : List (List ℕ) → Option (List ℕ)
first_of [] = none
first_of (e ∷ errors) = some e

-- The texts that `attachment_health` makes, for the ingress and the egress hook.
pub record HookTexts : Type 0 where
  pub ingress_gone : List ℕ
  pub egress_gone : List ℕ
  pub ingress_failed : List ℕ
  pub egress_failed : List ℕ

abbrev pub health_with : AttachedInterface → Bool → Bool → Option (List ℕ) → InterfaceHealth
health_with a ingress egress last_error = record {
  ifindex = a.ifindex;
  name = a.name;
  ingress_attached = ingress;
  egress_attached = egress;
  last_error = last_error;
}

unfoldable pub interface_health :
    HookTexts → Option Bool → Option Bool → AttachedInterface → InterfaceHealth
interface_health texts ingress egress a =
    if not a.tcx
    then health_with a (is_some a.ingress) (is_some a.egress) a.last_error
    else if not (is_healthy a)
    then health_with a false false a.last_error
    else health_with a (hook_ok ingress) (hook_ok egress) (
        first_of (
          hook_error ingress texts.ingress_failed texts.ingress_gone
            (hook_error egress texts.egress_failed texts.egress_gone [])))
