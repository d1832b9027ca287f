-- ===== src/RulePolicy/Apply/Rates.antt =====
-- The rate and the burst of one rule state through `apply_policy` of zimascoped/src/collector/aya.rs.
use mathlib.Core.Logic.{ite}
use zima_scope.Abi.{RuleState, BucketKey, BucketKey-discrete}
use zima_scope.Base.Assoc.{get, get-insert_self, get-insert_ne, get-remove_self, get-remove_ne}
use zima_scope.Base.{
  ℕ, ◌≡◌, refl, sym, ap, ◌∙◌, arith, Option, some, none, List, [], ◌∷◌, ◌++◌, ◌>>=◌, inl, inr,
  Option-cases,
}
use zima_scope.RulePolicy.Apply.{
  KernelMaps, apply_op, apply_ops, updated_state, insert_state, insert_match, delete_match,
}
use zima_scope.RulePolicy.Rules.{
  PolicyOp, set_enabled, upsert_state, remove_state, upsert_match, remove_match,
}

-- The rate and the burst that the state of `key` has after an operation, where there is one.
abbrev pub rate_op : PolicyOp → BucketKey → ℕ × ℕ → ℕ × ℕ
rate_op (upsert_state x rate burst) key v = ite (BucketKey-discrete x key) (rate, burst) v
rate_op (set_enabled a b c d) key v = v
rate_op (remove_state x) key v = v
rate_op (upsert_match x rule) key v = v
rate_op (remove_match x) key v = v

abbrev pub rates_after : List PolicyOp → BucketKey → ℕ × ℕ → ℕ × ℕ
rates_after [] key v = v
rates_after (op ∷ ops) key v = rates_after ops key (rate_op op key v)

-- If the key has a state, then with this rate and burst.
abbrev pub HasRates : KernelMaps → BucketKey → ℕ × ℕ → Type 0
HasRates k key v =
    (s : RuleState)
    → get BucketKey-discrete key k.states ≡ some s
    → (s.rate_bytes_per_s, s.burst_bytes) ≡ v

updated_state-rates :
    (old : Option RuleState) (rate burst : ℕ)
    → ((updated_state old rate burst).rate_bytes_per_s ≡ rate)
      × ((updated_state old rate burst).burst_bytes ≡ burst)
unfolding updated_state
updated_state-rates none rate burst = (refl, refl)
updated_state-rates (some old) rate burst = (refl, refl)

apply_op-HasRates :
    (k k' : KernelMaps) (op : PolicyOp) (key : BucketKey) (v : ℕ × ℕ)
    → HasRates k key v
    → apply_op k op ≡ some k'
    → HasRates k' key (rate_op op key v)
unfolding apply_op insert_state insert_match delete_match
apply_op-HasRates k k' (set_enabled a b c d) key v has done s found = has s (ground arith)
apply_op-HasRates k k' (upsert_match x rule) key v has done s found = has s (ground arith)
apply_op-HasRates k k' (remove_match x) key v has done s found = has s (ground arith)
apply_op-HasRates k k' (remove_state x) key v has done s found = elim (BucketKey-discrete key x) [
  | yes same ↦ absurd (ground (arith, get-remove_self BucketKey-discrete x k.states))
  | no ne ↦ has s (ground (arith, get-remove_ne BucketKey-discrete x key k.states))
]
apply_op-HasRates k k' (upsert_state x rate burst) key v has done s found =
    let state = updated_state (get BucketKey-discrete x k.states) rate burst in
    let (own_rate, own_burst) =
      updated_state-rates (get BucketKey-discrete x k.states) rate burst in
    elim (BucketKey-discrete x key) [
      | yes same ↦ ground (arith, get-insert_self BucketKey-discrete x state k.states)
      | no ne ↦
          has s (ground (arith, get-insert_ne BucketKey-discrete x key state k.states))
          ∙ ground arith
    ]

pub apply_ops-HasRates :
    (k k' : KernelMaps) (ops : List PolicyOp) (key : BucketKey) (v : ℕ × ℕ)
    → HasRates k key v
    → apply_ops k ops ≡ some k'
    → HasRates k' key (rates_after ops key v)
unfolding apply_ops
apply_ops-HasRates k k' [] key v has done = λ s found. has s (ground arith)
apply_ops-HasRates k k' (op ∷ ops) key v has done = elim (Option-cases (apply_op k op)) [
  | inl fault ↦
      absurd
        (let e : none ≡ some k' = sym (ap (λ o. o >>= λ m. apply_ops m ops) fault) ∙ done in cc)
  | inr (k1, ok) ↦
      apply_ops-HasRates k1 k' ops key (rate_op op key v) (apply_op-HasRates k k1 op key v has ok)
        (sym (ap (λ o. o >>= λ m. apply_ops m ops) ok) ∙ done)
]

pub rates_after-append :
    (xs ys : List PolicyOp) (key : BucketKey) (v : ℕ × ℕ)
    → rates_after (xs ++ ys) key v ≡ rates_after ys key (rates_after xs key v)
rates_after-append [] ys key v = refl
rates_after-append (op ∷ xs) ys key v = rates_after-append xs ys key (rate_op op key v)
