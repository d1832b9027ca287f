-- ===== src/Collector/Poll/Closing.antt =====
-- Which gaps a poll of zimascoped/src/collector/mod.rs closes, where everything that it reads succeeds.
use zima_scope.Abi.{KernelStats}
use zima_scope.Base.Assoc.{
  get, remove, get-remove_self, get-remove_ne, remove_of_none, get-remove_absent,
}
use zima_scope.Base.{
  ℕ, ◌≡◌, ◌≢◌, ◌↔◌, refl, sym, ◌⊎◌, inl, inr, ap, ◌∙◌, arith, Bool, true, false, ◌||◌, Option, some,
  none, List, [], ◌∷◌, ◌==◌, All,
}
use zima_scope.Collector.Health.{
  GapKey, GapKey-discrete, HealthTracker, close_gap, observe, record_kernel,
}
use zima_scope.Collector.Poll.{
  poll_health, is_degraded, is_attached, note_interface, note_interfaces, observe_stats,
  some_detached, drained,
}
use zima_scope.Collector.Poll.State.{Answers}
use zima_scope.Model.Health.{ObservationGap, InterfaceHealth}

-- Every read succeeded and every interface is attached.
abbrev pub IsComplete : Answers → Type 0
IsComplete answers =
    (answers.services_drained ≡ true)
    × (answers.owner_entries ≢ none)
    × (answers.flow_entries ≢ none)
    × (answers.domains_drained ≡ true)
    × (answers.stats ≢ none)
    × All (λ interface. is_attached interface ≡ true) answers.interfaces

abbrev pub is_reported : ℕ → List InterfaceHealth → Bool
is_reported ifindex [] = false
is_reported ifindex (interface ∷ interfaces) =
    interface.ifindex == ifindex || is_reported ifindex interfaces

pub attached_of_none_detached :
    (interfaces : List InterfaceHealth)
    → some_detached interfaces ≡ false
    → All (λ interface. is_attached interface ≡ true) interfaces
unfolding some_detached
attached_of_none_detached [] h = tt
attached_of_none_detached (interface ∷ interfaces) h =
    ground (arith, attached_of_none_detached interfaces)

pub none_detached_of_attached :
    (interfaces : List InterfaceHealth)
    → All (λ interface. is_attached interface ≡ true) interfaces
    → some_detached interfaces ≡ false
unfolding some_detached
none_detached_of_attached [] h = refl
none_detached_of_attached (interface ∷ interfaces) (h, all) =
    rw (h, none_detached_of_attached interfaces all) refl

pub IsComplete-iff : (answers : Answers) → (is_degraded answers ≡ false) ↔ IsComplete answers
unfolding is_degraded
IsComplete-iff answers = ground (
  arith,
  attached_of_none_detached answers.interfaces,
  none_detached_of_attached answers.interfaces,
)

abbrev pub Gaps : Type 0
Gaps = List (GapKey × ObservationGap)

pub open_gaps-close_gap :
    (h : HealthTracker) (key : GapKey) (at : ℕ)
    → (close_gap h key at).open_gaps ≡ remove GapKey-discrete key h.open_gaps
unfolding close_gap
open_gaps-close_gap h key at = ground (arith, remove_of_none GapKey-discrete key h.open_gaps)

pub open_gaps-observe :
    {A : Type 0} (h : HealthTracker) (result : Option A) (key : GapKey) (at : ℕ)
    → result ≢ none
    → (observe h result key at).open_gaps ≡ remove GapKey-discrete key h.open_gaps
unfolding observe
open_gaps-observe h none key at ok = absurd (ok refl)
open_gaps-observe h (some value) key at ok = open_gaps-close_gap h key at

abbrev pub remove_interfaces : List InterfaceHealth → Gaps → Gaps
remove_interfaces [] gaps = gaps
remove_interfaces (interface ∷ interfaces) gaps =
    remove_interfaces interfaces
      (remove GapKey-discrete (GapKey.interface_detached interface.ifindex) gaps)

abbrev pub remove_reads : Gaps → Gaps
remove_reads gaps = remove GapKey-discrete GapKey.kernel_stats_read_failed (
    remove GapKey-discrete GapKey.domain_events_read_failed (
      remove GapKey-discrete GapKey.flow_map_read_failed (
        remove GapKey-discrete GapKey.owner_map_read_failed
          (remove GapKey-discrete GapKey.service_events_read_failed gaps))))

pub note_interface_attached :
    (h : HealthTracker) (interface : InterfaceHealth) (at : ℕ)
    → is_attached interface ≡ true
    → note_interface h interface at ≡ close_gap h (GapKey.interface_detached interface.ifindex) at
unfolding note_interface
note_interface_attached h interface at attached = rw (note_interface, attached) refl

pub open_gaps-note_interfaces :
    (h : HealthTracker) (interfaces : List InterfaceHealth) (at : ℕ)
    → All (λ interface. is_attached interface ≡ true) interfaces
    → (note_interfaces h interfaces at).open_gaps ≡ remove_interfaces interfaces h.open_gaps
unfolding note_interfaces
open_gaps-note_interfaces h [] at all = refl
open_gaps-note_interfaces h (interface ∷ interfaces) at (attached, all) =
    open_gaps-note_interfaces (note_interface h interface at) interfaces at all
    ∙ ap (λ h'. remove_interfaces interfaces h'.open_gaps)
        (note_interface_attached h interface at attached)
    ∙ ap (remove_interfaces interfaces)
        (open_gaps-close_gap h (GapKey.interface_detached interface.ifindex) at)

pub open_gaps-observe_stats :
    (h : HealthTracker) (stats : Option KernelStats) (at : ℕ)
    → stats ≢ none
    → (observe_stats h stats at).open_gaps
      ≡ remove GapKey-discrete GapKey.kernel_stats_read_failed h.open_gaps
unfolding observe_stats record_kernel observe
open_gaps-observe_stats h none at ok = absurd (ok refl)
open_gaps-observe_stats h (some stats) at ok =
    open_gaps-close_gap h GapKey.kernel_stats_read_failed at

pub drained_ok : (succeeded : Bool) → succeeded ≡ true → drained succeeded ≢ none
drained_ok succeeded ok = ground arith

pub open_gaps-poll_health :
    (h : HealthTracker) (answers : Answers)
    → IsComplete answers
    → (poll_health h answers).open_gaps
      ≡ remove_interfaces answers.interfaces (remove_reads h.open_gaps)
unfolding poll_health
open_gaps-poll_health h answers (services, owners, flows, domains, stats, attached) =
    rw
      (
        open_gaps-note_interfaces _ answers.interfaces answers.collected_at attached,
        open_gaps-observe_stats _ answers.stats answers.collected_at stats,
        open_gaps-observe _ (drained answers.domains_drained) GapKey.domain_events_read_failed
            answers.collected_at (drained_ok answers.domains_drained domains),
        open_gaps-observe _ answers.flow_entries GapKey.flow_map_read_failed answers.collected_at
            flows,
        open_gaps-observe _ answers.owner_entries GapKey.owner_map_read_failed answers.collected_at
            owners,
        open_gaps-observe _ (drained answers.services_drained) GapKey.service_events_read_failed
            answers.collected_at (drained_ok answers.services_drained services),
      )
      refl

pub ==_cases : (a b : ℕ) → (a ≡ b) ⊎ ((a == b) ≡ false)
==_cases a b = ground arith

pub get-remove_interfaces_absent :
    (q : GapKey) (interfaces : List InterfaceHealth) (gaps : Gaps)
    → get GapKey-discrete q gaps ≡ none
    → get GapKey-discrete q (remove_interfaces interfaces gaps) ≡ none
get-remove_interfaces_absent q [] gaps absent = absent
get-remove_interfaces_absent q (interface ∷ interfaces) gaps absent =
    let key = GapKey.interface_detached interface.ifindex in
    get-remove_interfaces_absent q interfaces (remove GapKey-discrete key gaps)
      (get-remove_absent GapKey-discrete key q gaps absent)

pub get-remove_interfaces_reported :
    (i : ℕ) (interfaces : List InterfaceHealth) (gaps : Gaps)
    → is_reported i interfaces ≡ true
    → get GapKey-discrete (GapKey.interface_detached i) (remove_interfaces interfaces gaps) ≡ none
get-remove_interfaces_reported i [] gaps is = cc
get-remove_interfaces_reported i (interface ∷ interfaces) gaps is =
    let key = GapKey.interface_detached interface.ifindex in
    let rest = remove GapKey-discrete key gaps in
    elim (==_cases interface.ifindex i) [
      | inl same ↦
          get-remove_interfaces_absent (GapKey.interface_detached i) interfaces rest
            (rw (sym same) (get-remove_self GapKey-discrete key gaps))
      | inr differs ↦ get-remove_interfaces_reported i interfaces rest (ground (arith, is, differs))
    ]

pub get-remove_interfaces_unreported :
    (i : ℕ) (interfaces : List InterfaceHealth) (gaps : Gaps)
    → is_reported i interfaces ≡ false
    → get GapKey-discrete (GapKey.interface_detached i) (remove_interfaces interfaces gaps)
      ≡ get GapKey-discrete (GapKey.interface_detached i) gaps
get-remove_interfaces_unreported i [] gaps is = refl
get-remove_interfaces_unreported i (interface ∷ interfaces) gaps is =
    let key = GapKey.interface_detached interface.ifindex in
    get-remove_interfaces_unreported i interfaces (remove GapKey-discrete key gaps) (ground arith)
    ∙ get-remove_ne GapKey-discrete key (GapKey.interface_detached i) gaps (ground arith)

pub get-remove_reads :
    (i : ℕ) (gaps : Gaps)
    → get GapKey-discrete (GapKey.interface_detached i) (remove_reads gaps)
      ≡ get GapKey-discrete (GapKey.interface_detached i) gaps
get-remove_reads i gaps =
    let q = GapKey.interface_detached i in
    get-remove_ne GapKey-discrete GapKey.kernel_stats_read_failed q _ (ground arith)
    ∙ get-remove_ne GapKey-discrete GapKey.domain_events_read_failed q _ (ground arith)
    ∙ get-remove_ne GapKey-discrete GapKey.flow_map_read_failed q _ (ground arith)
    ∙ get-remove_ne GapKey-discrete GapKey.owner_map_read_failed q _ (ground arith)
    ∙ get-remove_ne GapKey-discrete GapKey.service_events_read_failed q gaps (ground arith)
