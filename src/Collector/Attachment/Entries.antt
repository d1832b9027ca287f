-- ===== src/Collector/Attachment/Entries.antt =====
-- Searching the entries of zimascoped/src/collector/aya.rs after one of them was retained, dropped or sorted.
use zima_scope.Base.{
  ℕ, ◌≡◌, inl, inr, refl, sym, ap, ◌∙◌, arith, true, false, ◌&&◌, some, List, [], ◌∷◌, ◌==◌,
  if◌then◌else◌, Bool-cases, ==_iff,
}
use zima_scope.Collector.Attachment.{
  AttachedInterface, Hooks, has_index, is_wanted, find_index, drop_index, retain_wanted,
  insert_by_index, sort_by_index,
}
use zima_scope.Collector.Attachment.Ledger.{AreDistinct, has_index-sort_by_index}

pub has_index-retain :
    (j : ℕ) (hooks : Hooks) (interfaces : List (ℕ × List ℕ)) (current : List AttachedInterface)
    → has_index j (retain_wanted hooks interfaces current).1
      ≡ (has_index j current && is_wanted j interfaces)
unfolding retain_wanted
has_index-retain j hooks interfaces [] = refl
has_index-retain j hooks interfaces (a ∷ current) =
    let later = has_index-retain j hooks interfaces current in
    elim (Bool-cases (a.ifindex == j)) [
      | inl is ↦ rw ((==_iff a.ifindex j).0 is) (ground (arith, later))
      | inr isnt ↦ ground (arith, later)
    ]

pub has_index-drop_other :
    (i j : ℕ) (bs : List AttachedInterface)
    → (i == j) ≡ false
    → has_index j (drop_index i bs) ≡ has_index j bs
unfolding drop_index
has_index-drop_other i j [] differs = refl
has_index-drop_other i j (b ∷ bs) differs = ground (arith, has_index-drop_other i j bs)

pub find_index-drop_other :
    (i j : ℕ) (bs : List AttachedInterface)
    → (i == j) ≡ false
    → find_index j (drop_index i bs) ≡ find_index j bs
unfolding drop_index find_index
find_index-drop_other i j [] differs = refl
find_index-drop_other i j (b ∷ bs) differs = ground (arith, find_index-drop_other i j bs)

pub find_index-retain :
    (j : ℕ) (b : AttachedInterface) (hooks : Hooks) (interfaces : List (ℕ × List ℕ))
    (current : List AttachedInterface)
    → is_wanted j interfaces ≡ true
    → find_index j current ≡ some b
    → find_index j (retain_wanted hooks interfaces current).1 ≡ some b
unfolding retain_wanted find_index
find_index-retain j b hooks interfaces [] wanted found = found
find_index-retain j b hooks interfaces (a ∷ current) wanted found =
    let later = find_index-retain j b hooks interfaces current wanted in
    elim (Bool-cases (a.ifindex == j)) [
      | inl is ↦
          let same = (==_iff a.ifindex j).0 is in
          let wanted' : is_wanted a.ifindex interfaces ≡ true =
            ap (λ i. is_wanted i interfaces) same ∙ wanted in
          rw (retain_wanted, wanted', is)
            (ap (λ c. if c then some a else find_index j current) (sym is) ∙ found)
      | inr isnt ↦ ground (arith, later)
    ]

pub find_index-insert :
    (j : ℕ) (a : AttachedInterface) (bs : List AttachedInterface)
    → has_index a.ifindex bs ≡ false
    → find_index j (insert_by_index a bs) ≡ find_index j (a ∷ bs)
unfolding insert_by_index find_index
find_index-insert j a [] absent = refl
find_index-insert j a (b ∷ bs) absent = ground (arith, find_index-insert j a bs)

pub find_index-sort :
    (j : ℕ) (bs : List AttachedInterface)
    → AreDistinct bs
    → find_index j (sort_by_index bs) ≡ find_index j bs
unfolding sort_by_index find_index
find_index-sort j [] distinct = refl
find_index-sort j (b ∷ bs) (absent, distinct) =
    find_index-insert j b (sort_by_index bs) (has_index-sort_by_index b.ifindex bs ∙ absent)
    ∙ ap (λ rest. if b.ifindex == j then some b else rest) (find_index-sort j bs distinct)

pub has_index_found :
    (i : ℕ) (bs : List AttachedInterface) (a : AttachedInterface)
    → find_index i bs ≡ some a
    → has_index i bs ≡ true
unfolding find_index
has_index_found i [] a e = cc
has_index_found i (b ∷ bs) a e = ground (arith, has_index_found i bs a)
