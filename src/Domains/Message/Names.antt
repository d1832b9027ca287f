-- ===== src/Domains/Message/Names.antt =====
-- The name that the parser collects label by label.
use zima_scope.Base.{
  ℕ, ◌+◌, ◌≤◌, ◌≡◌, refl, ◌∙◌, some, List, [], ◌∷◌, ◌++◌, arith, length, length-append,
}
use zima_scope.Abi.{domain_max_len}
use zima_scope.Domains.Dns.{with_dot}
use mathlib.Core.List.{append_assoc}
use zima_scope.Domains.Message.{joined, appended}

pub length-appended :
    (name : List ℕ) (labels : List (List ℕ)) → length name ≤ length (appended name labels)
unfolding appended
length-appended name [] = omega arith
length-appended [] (label ∷ labels) = omega arith
length-appended (b ∷ name) (label ∷ labels) =
    let dotted = (b ∷ name) ++ b'.' ∷ [] in
    let more = length-appended (dotted ++ label) labels in
    omega (arith, length-append dotted label, length-append (b ∷ name) (b'.' ∷ []))

-- The separator fits where the whole name does.
pub dotted-fits :
    (name label : List ℕ) (labels : List (List ℕ))
    → 1 ≤ length label
    → length (appended name (label ∷ labels)) ≤ domain_max_len
    → (dotted : List ℕ) × (with_dot name ≡ some dotted)
      × (length dotted + length label ≤ domain_max_len)
      × (appended name (label ∷ labels) ≡ appended (dotted ++ label) labels)
unfolding appended
dotted-fits [] label labels h k =
    ([], refl, (let more = length-appended label labels in omega arith), refl)
dotted-fits (b ∷ name) label labels h k =
    let dotted = (b ∷ name) ++ b'.' ∷ [] in
    let more = length-appended (dotted ++ label) labels in
    let e1 = length-append dotted label in
    let e2 = length-append (b ∷ name) (b'.' ∷ []) in (dotted, ground arith, omega arith, refl)

appended-dotted :
    (b : ℕ) (name next : List ℕ) (labels : List (List ℕ))
    → appended (b ∷ name) (next ∷ labels) ≡ (b ∷ name) ++ b'.' ∷ joined (next ∷ labels)
unfolding appended joined
appended-dotted b name next [] = append_assoc (b ∷ name) (b'.' ∷ []) next
appended-dotted b name next (more ∷ labels) =
    appended-dotted b ((name ++ b'.' ∷ []) ++ next) more labels
    ∙ append_assoc ((b ∷ name) ++ b'.' ∷ []) next (b'.' ∷ joined (more ∷ labels))
    ∙ append_assoc (b ∷ name) (b'.' ∷ []) (next ++ b'.' ∷ joined (more ∷ labels))

pub joined-appended :
    (label : List ℕ) (labels : List (List ℕ))
    → 1 ≤ length label
    → appended [] (label ∷ labels) ≡ joined (label ∷ labels)
unfolding appended joined
joined-appended [] labels h = absurd (omega arith)
joined-appended (b ∷ label) [] h = refl
joined-appended (b ∷ label) (next ∷ labels) h = appended-dotted b label next labels
