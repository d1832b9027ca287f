-- ===== src/Collector/Attachment/Ledger.antt =====
-- Where the links of the hooks of zimascoped/src/collector/aya.rs are: each that was made is held by
-- one entry or was detached.
use zima_scope.Base.{
  ℕ, ◌+◌, ◌≡◌, refl, ap, ◌∙◌, arith, false, ◌||◌, Option, some, none, List, [], ◌∷◌, ◌==◌,
  if◌then◌else◌,
}
use zima_scope.Collector.Attachment.{
  AttachedInterface, Hooks, detach_link, detach_links, detach_all, has_index, collect, find_index,
  drop_index, insert_by_index, sort_by_index,
}

abbrev pub occurs : ℕ → Option ℕ → ℕ
occurs n none = 0
occurs n (some link) = if link == n then 1 else 0

abbrev pub count : ℕ → List ℕ → ℕ
count n [] = 0
count n (link ∷ links) = (if link == n then 1 else 0) + count n links

abbrev pub own : ℕ → AttachedInterface → ℕ
own n a = occurs n a.ingress + occurs n a.egress

-- How often the entries hold the link.
abbrev pub held : ℕ → List AttachedInterface → ℕ
held n [] = 0
held n (a ∷ attached) = own n a + held n attached

-- No index stands twice.
abbrev pub AreDistinct : List AttachedInterface → Type 0
AreDistinct [] = Unit
AreDistinct (a ∷ attached) = (has_index a.ifindex attached ≡ false) × AreDistinct attached

pub drop_index_absent :
    (i : ℕ) (bs : List AttachedInterface) → has_index i bs ≡ false → drop_index i bs ≡ bs
unfolding drop_index
drop_index_absent i [] absent = refl
drop_index_absent i (b ∷ bs) absent = ground (arith, drop_index_absent i bs)

module _ (n : ℕ) where
  pub count-detach_link :
      (hooks : Hooks) (link : Option ℕ)
      → (count n (detach_link hooks link).detached ≡ occurs n link + count n hooks.detached)
        × ((detach_link hooks link).attempts ≡ hooks.attempts)
  unfolding detach_link
  count-detach_link hooks none = (omega arith, refl)
  count-detach_link hooks (some link) = (omega arith, refl)

  pub count-detach_links :
      (hooks : Hooks) (a : AttachedInterface)
      → (count n (detach_links hooks a).detached ≡ own n a + count n hooks.detached)
        × ((detach_links hooks a).attempts ≡ hooks.attempts)
  unfolding detach_links
  count-detach_links hooks a =
      let (first, tries) = count-detach_link hooks a.ingress in
      let (second, tries') = count-detach_link (detach_link hooks a.ingress) a.egress in
      (omega (arith, first, second), tries' ∙ tries)

  pub count-detach_all :
      (hooks : Hooks) (attached : List AttachedInterface)
      → (count n (detach_all hooks attached).detached ≡ held n attached + count n hooks.detached)
        × ((detach_all hooks attached).attempts ≡ hooks.attempts)
  unfolding detach_all
  count-detach_all hooks [] = (omega arith, refl)
  count-detach_all hooks (a ∷ attached) =
      let (first, tries) = count-detach_links hooks a in
      let (later, tries') = count-detach_all (detach_links hooks a) attached in
      (omega (arith, first, later), tries' ∙ tries)

  held-insert_by_index :
      (a : AttachedInterface) (bs : List AttachedInterface)
      → held n (insert_by_index a bs) ≡ own n a + held n bs
  unfolding insert_by_index
  held-insert_by_index a [] = refl
  held-insert_by_index a (b ∷ bs) = ground (arith, held-insert_by_index a bs)

  pub held-sort_by_index : (bs : List AttachedInterface) → held n (sort_by_index bs) ≡ held n bs
  unfolding sort_by_index
  held-sort_by_index [] = refl
  held-sort_by_index (b ∷ bs) =
      omega (arith, held-insert_by_index b (sort_by_index bs), held-sort_by_index bs)

  pub held-drop_index :
      (i : ℕ) (a : AttachedInterface) (bs : List AttachedInterface)
      → AreDistinct bs
      → find_index i bs ≡ some a
      → held n (drop_index i bs) + own n a ≡ held n bs
  unfolding drop_index find_index
  held-drop_index i a [] distinct found = cc
  held-drop_index i a (b ∷ bs) (absent, distinct) found =
      ground (arith, held-drop_index i a bs distinct, drop_index_absent i bs)

has_index-drop_index_other :
    (i j : ℕ) (bs : List AttachedInterface)
    → has_index j bs ≡ false
    → has_index j (drop_index i bs) ≡ false
unfolding drop_index
has_index-drop_index_other i j [] absent = refl
has_index-drop_index_other i j (b ∷ bs) absent = ground (arith, has_index-drop_index_other i j bs)

pub has_index-drop_index :
    (i : ℕ) (bs : List AttachedInterface) → has_index i (drop_index i bs) ≡ false
unfolding drop_index
has_index-drop_index i [] = refl
has_index-drop_index i (b ∷ bs) = ground (arith, has_index-drop_index i bs)

pub drop_index-AreDistinct :
    (i : ℕ) (bs : List AttachedInterface) → AreDistinct bs → AreDistinct (drop_index i bs)
unfolding drop_index
drop_index-AreDistinct i [] distinct = tt
drop_index-AreDistinct i (b ∷ bs) (absent, distinct) =
    ground (
      arith,
      drop_index-AreDistinct i bs distinct,
      has_index-drop_index_other i b.ifindex bs absent,
    )

pub has_index_of_find :
    (i : ℕ) (bs : List AttachedInterface) → find_index i bs ≡ none → has_index i bs ≡ false
unfolding find_index
has_index_of_find i [] e = refl
has_index_of_find i (b ∷ bs) e = ground (arith, has_index_of_find i bs)

pub collect_distinct : (bs : List AttachedInterface) → AreDistinct bs → collect bs ≡ bs
unfolding collect
collect_distinct [] distinct = refl
collect_distinct (b ∷ bs) (absent, distinct) = rw (collect_distinct bs distinct, absent) refl

has_index-insert_by_index :
    (j : ℕ) (a : AttachedInterface) (bs : List AttachedInterface)
    → has_index j (insert_by_index a bs) ≡ (a.ifindex == j || has_index j bs)
unfolding insert_by_index
has_index-insert_by_index j a [] = refl
has_index-insert_by_index j a (b ∷ bs) = ground (arith, has_index-insert_by_index j a bs)

pub has_index-sort_by_index :
    (j : ℕ) (bs : List AttachedInterface) → has_index j (sort_by_index bs) ≡ has_index j bs
unfolding sort_by_index
has_index-sort_by_index j [] = refl
has_index-sort_by_index j (b ∷ bs) =
    has_index-insert_by_index j b (sort_by_index bs)
    ∙ ap (λ x. b.ifindex == j || x) (has_index-sort_by_index j bs)

insert_by_index-AreDistinct :
    (a : AttachedInterface) (bs : List AttachedInterface)
    → has_index a.ifindex bs ≡ false
    → AreDistinct bs
    → AreDistinct (insert_by_index a bs)
unfolding insert_by_index
insert_by_index-AreDistinct a [] absent distinct = (refl, tt)
insert_by_index-AreDistinct a (b ∷ bs) absent (first, distinct) =
    ground (arith, insert_by_index-AreDistinct a bs, has_index-insert_by_index b.ifindex a bs)

pub sort_by_index-AreDistinct :
    (bs : List AttachedInterface) → AreDistinct bs → AreDistinct (sort_by_index bs)
unfolding sort_by_index
sort_by_index-AreDistinct [] distinct = tt
sort_by_index-AreDistinct (b ∷ bs) (absent, distinct) =
    insert_by_index-AreDistinct b (sort_by_index bs) (has_index-sort_by_index b.ifindex bs ∙ absent)
      (sort_by_index-AreDistinct bs distinct)
