-- ===== src/Domains/Normal.antt =====
-- Normal forms of domain names: `normalize_domain` of zimascoped/src/collector/domain.rs.
use mathlib.Core.Path.{subst}
use mathlib.Core.Option.{some-injective}
use zima_scope.Abi.{domain_max_len}
use zima_scope.Base.{
  ℕ, suc, ◌≤◌, ◌≡◌, refl, ap, sym, ◌∙◌, arith, Bool, true, some, List, [], ◌∷◌, ◌==◌, length, map,
  inl, inr, Bool-cases,
}
use zima_scope.Domains.Names.{
  dot, strip_root, onto_first, split_dots, labels_fit, has_forbidden, lowercase, is_acceptable,
  normalize_domain,
}

abbrev lower : List ℕ → List ℕ
lower = map lowercase

abbrev lower_labels : List (List ℕ) → List (List ℕ)
lower_labels = map lower

lowercase-dot : (b : ℕ) → (lowercase b == dot) ≡ (b == dot)
lowercase-dot b = ground arith

lowercase_twice : (b : ℕ) → lowercase (lowercase b) ≡ lowercase b
lowercase_twice b = ground arith

length-lower : (xs : List ℕ) → length (lower xs) ≡ length xs
length-lower [] = refl
length-lower (x ∷ xs) = ap suc (length-lower xs)

lower_twice : (xs : List ℕ) → lower (lower xs) ≡ lower xs
lower_twice [] = refl
lower_twice (x ∷ xs) = rw (lowercase_twice x, lower_twice xs) refl

lower-onto_first :
    (b : ℕ) (labels : List (List ℕ))
    → onto_first (lowercase b) (lower_labels labels) ≡ lower_labels (onto_first b labels)
lower-onto_first b [] = refl
lower-onto_first b (label ∷ labels) = refl

split_dots-lower : (xs : List ℕ) → split_dots (lower xs) ≡ lower_labels (split_dots xs)
unfolding split_dots
split_dots-lower [] = refl
split_dots-lower (b ∷ xs) = ground (arith, split_dots-lower xs, lower-onto_first b (split_dots xs))

labels_fit-lower : (labels : List (List ℕ)) → labels_fit (lower_labels labels) ≡ labels_fit labels
unfolding labels_fit
labels_fit-lower [] = refl
labels_fit-lower (label ∷ labels) = rw (length-lower label, labels_fit-lower labels) refl

has_forbidden-lower : (xs : List ℕ) → has_forbidden (lower xs) ≡ has_forbidden xs
unfolding has_forbidden
has_forbidden-lower [] = refl
has_forbidden-lower (b ∷ []) = ground arith
has_forbidden-lower (b ∷ c ∷ rest) = ground (arith, has_forbidden-lower (c ∷ rest))

strip_root-lower : (xs : List ℕ) → strip_root (lower xs) ≡ lower (strip_root xs)
unfolding strip_root
strip_root-lower [] = refl
strip_root-lower (b ∷ []) = ground arith
strip_root-lower (b ∷ c ∷ rest) = ap (λ zs. lowercase b ∷ zs) (strip_root-lower (c ∷ rest))

abbrev rest_fit : List (List ℕ) → Bool
rest_fit [] = true
rest_fit (label ∷ labels) = labels_fit labels

rest_fit-onto_first :
    (b : ℕ) (labels : List (List ℕ)) → rest_fit (onto_first b labels) ≡ rest_fit labels
unfolding labels_fit
rest_fit-onto_first b [] = refl
rest_fit-onto_first b (label ∷ labels) = refl

rest_of_fit : (labels : List (List ℕ)) → labels_fit labels ≡ true → rest_fit labels ≡ true
unfolding labels_fit
rest_of_fit [] h = refl
rest_of_fit (label ∷ labels) h = ground arith

rest_of_cons :
    (b : ℕ) (xs : List ℕ) → rest_fit (split_dots (b ∷ xs)) ≡ true → rest_fit (split_dots xs) ≡ true
unfolding split_dots
rest_of_cons b xs h =
    ground (arith, rest_of_fit (split_dots xs), rest_fit-onto_first b (split_dots xs))

-- A name whose labels fit, but perhaps the first, does not end in a dot.
strip_root_self : (xs : List ℕ) → rest_fit (split_dots xs) ≡ true → strip_root xs ≡ xs
unfolding strip_root split_dots labels_fit
strip_root_self [] h = refl
strip_root_self (b ∷ []) h = ground arith
strip_root_self (b ∷ c ∷ rest) h =
    ap (λ zs. b ∷ zs) (strip_root_self (c ∷ rest) (rest_of_cons b (c ∷ rest) h))

is_acceptable-lower : (xs : List ℕ) → is_acceptable (lower xs) ≡ is_acceptable xs
is_acceptable-lower xs =
    rw
      (
        length-lower xs,
        split_dots-lower xs,
        labels_fit-lower (split_dots xs),
        has_forbidden-lower xs,
      )
      refl

stripped_acceptable : (xs : List ℕ) → is_acceptable xs ≡ true → strip_root xs ≡ xs
stripped_acceptable xs h = strip_root_self xs (rest_of_fit (split_dots xs) (ground arith))

normalized :
    (raw : List ℕ)
    → is_acceptable (strip_root raw) ≡ true
    → normalize_domain raw ≡ some (lower (strip_root raw))
unfolding normalize_domain
normalized raw h = rw h refl

-- A text that comes to lowercase `trimmed` has that as its normal form.
normalized_lower :
    (raw trimmed : List ℕ)
    → is_acceptable trimmed ≡ true
    → strip_root raw ≡ lower trimmed
    → normalize_domain raw ≡ some (lower trimmed)
normalized_lower raw trimmed h e =
    normalized raw (ap is_acceptable e ∙ is_acceptable-lower trimmed ∙ h)
    ∙ ap some (ap lower e ∙ lower_twice trimmed)

-- What `normalize_domain` returns is a normal form: it returns the same for the result itself and for
-- the lowercase of the text that it was given, and the result has 1 to 253 bytes.
pub normalize_domain-normal :
    (raw domain : List ℕ)
    → normalize_domain raw ≡ some domain
    → (normalize_domain domain ≡ some domain)
      × (normalize_domain (map lowercase raw) ≡ some domain)
      × (1 ≤ length domain)
      × (length domain ≤ domain_max_len)
unfolding normalize_domain
normalize_domain-normal raw domain h = elim (Bool-cases (is_acceptable (strip_root raw))) [
  | inr refused ↦ absurd (ground arith)
  | inl accepted ↦
      let trimmed = strip_root raw in
      let e : lower trimmed ≡ domain =
        some-injective (lower trimmed) domain (sym (normalized raw accepted) ∙ h) in
      let same : strip_root (lower trimmed) ≡ lower trimmed =
        strip_root-lower trimmed ∙ ap lower (stripped_acceptable trimmed accepted) in
      let size : length (lower trimmed) ≡ length trimmed = length-lower trimmed in
      subst
        (λ d.
          (normalize_domain d ≡ some d)
          × (normalize_domain (lower raw) ≡ some d)
          × (1 ≤ length d)
          × (length d ≤ domain_max_len))
        e
        (
          normalized_lower (lower trimmed) trimmed accepted same,
          normalized_lower (lower raw) trimmed accepted (strip_root-lower raw),
          ground (arith, size),
          ground (arith, size),
        )
]
