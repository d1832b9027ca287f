-- ===== src/RulePolicy/Apply/Sequence.antt =====
-- `apply_policy` of zimascoped/src/collector/mod.rs, for one policy after another: each is diffed
-- against the one that was applied last.
use zima_scope.Base.{
  ℕ, ◌≡◌, refl, sym, ap, ◌∙◌, arith, Bool, true, ◌&&◌, Option, some, none, List, [], ◌∷◌, ◌>>=◌,
  All,
}
use zima_scope.RulePolicy.Apply.{KernelMaps, apply_ops, fits}
use zima_scope.RulePolicy.Apply.Refines.{Installed, diff-refines}
use zima_scope.RulePolicy.Apply.Removals.{Separate}
use zima_scope.RulePolicy.Apply.States.{SeparateStates}
use zima_scope.RulePolicy.Apply.Track.{both_true}
use zima_scope.RulePolicy.Diff.{diff}
use zima_scope.RulePolicy.Rules.{MatchEntry, CompiledPolicy}

unfoldable pub apply_policies :
    KernelMaps → CompiledPolicy → List CompiledPolicy → Option KernelMaps
apply_policies k applied [] = some k
apply_policies k applied (next ∷ policies) = do
  k' ← apply_ops k (diff applied next)
  apply_policies k' next policies

abbrev pub last_policy : CompiledPolicy → List CompiledPolicy → CompiledPolicy
last_policy applied [] = applied
last_policy applied (next ∷ policies) = last_policy next policies

-- What `diff-refines` asks of a policy.
abbrev pub IsSeparate : (MatchEntry → ℕ) → CompiledPolicy → Type 0
IsSeparate home p = Separate home p.rules × SeparateStates p.rules

-- Whether every policy fits on the maps that those before it leave.
abbrev pub all_fit : KernelMaps → CompiledPolicy → List CompiledPolicy → Bool
all_fit k applied [] = true
all_fit k applied (next ∷ policies) =
    let ops = diff applied next in
    fits k ops && elim (apply_ops k ops) [ none ↦ true | some k' ↦ all_fit k' next policies ]

all_fit_after :
    (k k' : KernelMaps) (applied next : CompiledPolicy) (policies : List CompiledPolicy)
    → all_fit k applied (next ∷ policies) ≡ true
    → apply_ops k (diff applied next) ≡ some k'
    → (fits k (diff applied next) ≡ true) × (all_fit k' next policies ≡ true)
all_fit_after k k' applied next policies fit done =
    let ops = diff applied next in
    both_true (fits k ops) (all_fit k' next policies) (
      ap (λ o. fits k ops && elim o [ none ↦ true | some m ↦ all_fit m next policies ]) (sym done)
      ∙ fit)

-- Where no two rule identifiers of any of the policies share a match entry, each rule lists its
-- entries and its state keys once and under its own identifier, and the rules of a policy have
-- different identifiers, and no operation on the way inserts a new key into a full map or names a
-- prefix by other than its own bits, a sequence of policies can be applied one after another
-- without a failing operation, and in the end the maps carry the last policy.
pub apply_policies-Installed :
    (home : MatchEntry → ℕ) (k : KernelMaps) (applied : CompiledPolicy)
    (policies : List CompiledPolicy)
    → Installed home applied k
    → IsSeparate home applied
    → All (IsSeparate home) policies
    → all_fit k applied policies ≡ true
    → (k' : KernelMaps) × (apply_policies k applied policies ≡ some k')
      × Installed home (last_policy applied policies) k'
unfolding apply_policies
apply_policies-Installed home k applied [] installed sep all fit = (k, refl, installed)
apply_policies-Installed home k applied (next ∷ policies) installed sep (sep', all) fit =
    let now : fits k (diff applied next) ≡ true = ground arith in
    let (k1, done, carried) =
      diff-refines home applied next k sep.0 sep'.0 sep.1 sep'.1 installed now in
    let (first, later) = all_fit_after k k1 applied next policies fit done in
    let (k2, rest, last) = apply_policies-Installed home k1 next policies carried sep' all later in
    (k2, ap (λ o. o >>= λ m. apply_policies m next policies) done ∙ rest, last)
