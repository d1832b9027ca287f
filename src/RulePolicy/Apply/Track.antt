-- ===== src/RulePolicy/Apply/Track.antt =====
-- One key at a time through `apply_policy` of zimascoped/src/collector/aya.rs: what a list of
-- operations does to the value of one match entry, or to the presence of one rule state.
use mathlib.Core.Logic.{ite}
use zima_scope.Abi.{RuleRef, BucketKey, BucketKey-discrete}
use zima_scope.Base.Assoc.{
  get, insert, remove, get-insert_self, get-insert_ne, get-remove_self, get-remove_ne,
}
use zima_scope.Base.{
  ◌≡◌, ◌≢◌, refl, sym, ap, ◌∙◌, arith, Bool, true, false, Option, some, none, List, [], ◌∷◌, ◌++◌,
  ◌>>=◌, ◌&&◌, inl, inr, Option-cases,
}
use zima_scope.RulePolicy.Apply.{
  KernelMaps, apply_op, apply_ops, updated_state, present, insert_state, insert_match, delete_match,
  trie_key, is_prefix, has_room, fits_op, fits,
}
use zima_scope.RulePolicy.Rules.{
  MatchEntry, MatchEntry-discrete, PolicyOp, set_enabled, upsert_state, remove_state, upsert_match,
  remove_match,
}

-- The value of entry `e` after an operation; `none` where the operation removes it while absent.
abbrev pub track_op : PolicyOp → MatchEntry → Option RuleRef → Option (Option RuleRef)
track_op (set_enabled a b c d) e v = some v
track_op (upsert_state key rate burst) e v = some v
track_op (remove_state key) e v = some v
track_op (upsert_match x rule) e v = some (ite (MatchEntry-discrete x e) (some rule) v)
track_op (remove_match x) e v =
    ite (MatchEntry-discrete x e) (elim v [ none ↦ none | some old ↦ some none ]) (some v)

unfoldable pub track : List PolicyOp → MatchEntry → Option RuleRef → Option (Option RuleRef)
track [] e v = some v
track (op ∷ ops) e v = do v' ← track_op op e v; track ops e v'

-- Whether the state of `key` is present after an operation.
abbrev pub track_state_op : PolicyOp → BucketKey → Bool → Option Bool
track_state_op (set_enabled a b c d) key v = some v
track_state_op (upsert_state x rate burst) key v = some (ite (BucketKey-discrete x key) true v)
track_state_op (remove_state x) key v =
    ite (BucketKey-discrete x key) (elim v [ false ↦ none | true ↦ some false ]) (some v)
track_state_op (upsert_match x rule) key v = some v
track_state_op (remove_match x) key v = some v

unfoldable pub track_state : List PolicyOp → BucketKey → Bool → Option Bool
track_state [] key v = some v
track_state (op ∷ ops) key v = do v' ← track_state_op op key v; track_state ops key v'

abbrev pub entry_at : KernelMaps → MatchEntry → Option RuleRef
entry_at k e = get MatchEntry-discrete e k.matches

abbrev pub state_at : KernelMaps → BucketKey → Bool
state_at k key = present (get BucketKey-discrete key k.states)

pub both_true : (a b : Bool) → (a && b) ≡ true → (a ≡ true) × (b ≡ true)
both_true a b both = ground arith

fits_after :
    (k k' : KernelMaps) (op : PolicyOp) (ops : List PolicyOp)
    → fits k (op ∷ ops) ≡ true
    → apply_op k op ≡ some k'
    → fits k' ops ≡ true
unfolding fits
fits_after k k' op ops fit done =
    (both_true (fits_op k op) (fits k' ops)
      (ap (λ o. fits_op k op && elim o [ none ↦ true | some m ↦ fits m ops ]) (sym done) ∙ fit)).1

is_prefix-trie_key : (e : MatchEntry) → is_prefix e ≡ true → trie_key e ≡ e
is_prefix-trie_key e is = elim (MatchEntry-discrete (trie_key e) e) [
  | yes same ↦ same
  | no other ↦ absurd (ground arith)
]

-- An operation that fits succeeds where no key faults, and then acts on every key as tracked.
apply_op-track :
    (k : KernelMaps) (op : PolicyOp)
    → fits_op k op ≡ true
    → ((e : MatchEntry) → track_op op e (entry_at k e) ≢ none)
    → ((key : BucketKey) → track_state_op op key (state_at k key) ≢ none)
    → (k' : KernelMaps) × (apply_op k op ≡ some k')
      × ((e : MatchEntry) → track_op op e (entry_at k e) ≡ some (entry_at k' e))
      × ((key : BucketKey) → track_state_op op key (state_at k key) ≡ some (state_at k' key))
unfolding apply_op fits_op insert_state insert_match delete_match
apply_op-track k (set_enabled a b c d) fit h hs = (_, refl, λ e. refl, λ key. refl)
apply_op-track k (upsert_state x rate burst) fit h hs =
    let state = updated_state (get BucketKey-discrete x k.states) rate burst in
    (
      record k { states = insert BucketKey-discrete x state k.states },
      rw (apply_op, insert_state, fit) refl,
      λ e. refl,
      λ key. ground (
        arith,
        get-insert_self BucketKey-discrete x state k.states,
        get-insert_ne BucketKey-discrete x key state k.states,
      ),
    )
apply_op-track k (remove_state x) fit h hs =
    elim (Option-cases (get BucketKey-discrete x k.states)) [
      | inl absent ↦ absurd (hs x (ground arith))
      | inr (old, found) ↦ (
        record k { states = remove BucketKey-discrete x k.states },
        ground arith,
        λ e. refl,
        λ key. ground (
          arith,
          get-remove_self BucketKey-discrete x k.states,
          get-remove_ne BucketKey-discrete x key k.states,
        ),
      )
    ]
apply_op-track k (upsert_match x rule) fit h hs =
    let (own, room) = both_true (is_prefix x) (has_room x k.matches) fit in
    let same = is_prefix-trie_key x own in
    (
      record k { matches = insert MatchEntry-discrete x rule k.matches },
      rw (apply_op, same, insert_match, room) refl,
      λ e. ground (
        arith,
        get-insert_self MatchEntry-discrete x rule k.matches,
        get-insert_ne MatchEntry-discrete x e rule k.matches,
      ),
      λ key. refl,
    )
apply_op-track k (remove_match x) fit h hs =
    let same = is_prefix-trie_key x fit in
    elim (Option-cases (entry_at k x)) [
      | inl absent ↦ absurd (h x (ground arith))
      | inr (old, found) ↦ (
        record k { matches = remove MatchEntry-discrete x k.matches },
        ap (delete_match k) same ∙ rw (delete_match, found) refl,
        λ e. ground (
          arith,
          get-remove_self MatchEntry-discrete x k.matches,
          get-remove_ne MatchEntry-discrete x e k.matches,
        ),
        λ key. refl,
      )
    ]

-- A list of operations that fit succeeds where no key faults, and then acts on every key as tracked.
pub apply_ops-track :
    (k : KernelMaps) (ops : List PolicyOp)
    → fits k ops ≡ true
    → ((e : MatchEntry) → track ops e (entry_at k e) ≢ none)
    → ((key : BucketKey) → track_state ops key (state_at k key) ≢ none)
    → (k' : KernelMaps) × (apply_ops k ops ≡ some k')
      × ((e : MatchEntry) → track ops e (entry_at k e) ≡ some (entry_at k' e))
      × ((key : BucketKey) → track_state ops key (state_at k key) ≡ some (state_at k' key))
unfolding apply_ops track track_state fits
apply_ops-track k [] fit h hs = (k, refl, λ e. refl, λ key. refl)
apply_ops-track k (op ∷ ops) fit h hs =
    let now : fits_op k op ≡ true = ground arith in
    let (k1, done, entries, states) =
      apply_op-track k op now (λ e f. h e (ap (λ o. o >>= track ops e) f))
        (λ key f. hs key (ap (λ o. o >>= track_state ops key) f)) in
    let (k2, done', entries', states') =
      apply_ops-track k1 ops (fits_after k k1 op ops fit done)
        (λ e f. h e (ap (λ o. o >>= track ops e) (entries e) ∙ f))
        (λ key f. hs key (ap (λ o. o >>= track_state ops key) (states key) ∙ f)) in
    (
      k2,
      ap (λ o. o >>= λ m. apply_ops m ops) done ∙ done',
      λ e. ap (λ o. o >>= track ops e) (entries e) ∙ entries' e,
      λ key. ap (λ o. o >>= track_state ops key) (states key) ∙ states' key,
    )

-- Tracking a list after another.
pub track-append :
    (xs ys : List PolicyOp) (e : MatchEntry) (v : Option RuleRef)
    → track (xs ++ ys) e v ≡ (track xs e v >>= track ys e)
unfolding track
track-append [] ys e v = refl
track-append (op ∷ xs) ys e v = elim (Option-cases (track_op op e v)) [
  | inl fault ↦
      ap (λ o. o >>= track (xs ++ ys) e) fault
      ∙ sym (ap (λ o. (o >>= track xs e) >>= track ys e) fault)
  | inr (v', ok) ↦
      ap (λ o. o >>= track (xs ++ ys) e) ok
      ∙ track-append xs ys e v'
      ∙ sym (ap (λ o. (o >>= track xs e) >>= track ys e) ok)
]

pub track_then :
    (xs ys : List PolicyOp) (e : MatchEntry) (v w : Option RuleRef)
    → track xs e v ≡ some w
    → track (xs ++ ys) e v ≡ track ys e w
track_then xs ys e v w h = track-append xs ys e v ∙ ap (λ o. o >>= track ys e) h

track_state-append :
    (xs ys : List PolicyOp) (key : BucketKey) (v : Bool)
    → track_state (xs ++ ys) key v ≡ (track_state xs key v >>= track_state ys key)
unfolding track_state
track_state-append [] ys key v = refl
track_state-append (op ∷ xs) ys key v = elim (Option-cases (track_state_op op key v)) [
  | inl fault ↦
      ap (λ o. o >>= track_state (xs ++ ys) key) fault
      ∙ sym (ap (λ o. (o >>= track_state xs key) >>= track_state ys key) fault)
  | inr (v', ok) ↦
      ap (λ o. o >>= track_state (xs ++ ys) key) ok
      ∙ track_state-append xs ys key v'
      ∙ sym (ap (λ o. (o >>= track_state xs key) >>= track_state ys key) ok)
]

pub track_state_then :
    (xs ys : List PolicyOp) (key : BucketKey) (v w : Bool)
    → track_state xs key v ≡ some w
    → track_state (xs ++ ys) key v ≡ track_state ys key w
track_state_then xs ys key v w h =
    track_state-append xs ys key v ∙ ap (λ o. o >>= track_state ys key) h
