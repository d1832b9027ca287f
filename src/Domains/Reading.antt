-- ===== src/Domains/Reading.antt =====
-- Reads of the memory cursor at a position of which the bytes behind it are known. `drop p bytes ≡ xs`
-- says that `xs` are the bytes from position `p` on.
use zima_scope.Base.{
  ℕ, zero, suc, ◌+◌, ◌-◌, ◌≤◌, ◌<◌, ◌≡◌, refl, ap, sym, ◌∙◌, true, some, List, [], ◌∷◌, ◌++◌, arith,
  length, get_elem?, take, drop, be16, be32, u64_mod, leb, le→leb, length-append, length-drop,
  drop-append, get_elem?-drop,
}
use zima_scope.Domains.Dns.{within}
use zima_scope.Packet.Cursor.{memory_u16, memory_u32, slice}

drop-nil : (n : ℕ) → drop {A = ℕ} n [] ≡ []
drop-nil zero = refl
drop-nil (suc n) = refl

pub drop-drop : (n m : ℕ) (xs : List ℕ) → drop (n + m) xs ≡ drop m (drop n xs)
drop-drop zero m xs = ap (λ k. drop k xs) (omega arith)
drop-drop (suc n) m [] = drop-nil (suc n + m) ∙ sym (drop-nil m)
drop-drop (suc n) m (x ∷ xs) =
    let e : suc n + m ≡ suc (n + m) = omega arith in ap (λ k. drop k (x ∷ xs)) e ∙ drop-drop n m xs

pub take-append : (xs ys : List ℕ) → take (length xs) (xs ++ ys) ≡ xs
take-append [] ys = refl
take-append (x ∷ xs) ys = ap (λ zs. x ∷ zs) (take-append xs ys)

pub within_of_le : (p len end : ℕ) → p + len ≤ end → end < u64_mod → within p len end ≡ true
within_of_le p len end h k = ground arith

module _ (bytes : List ℕ) (p : ℕ) where
  -- Behind the first bytes.
  pub behind : (xs ys : List ℕ) → drop p bytes ≡ xs ++ ys → drop (p + length xs) bytes ≡ ys
  behind xs ys h =
      drop-drop p (length xs) bytes ∙ ap (λ zs. drop (length xs) zs) h ∙ drop-append xs ys

  pub ahead : (i : ℕ) (xs : List ℕ) → drop p bytes ≡ xs → drop (p + i) bytes ≡ drop i xs
  ahead i xs h = drop-drop p i bytes ∙ ap (λ zs. drop i zs) h

  pub room : (xs : List ℕ) → drop p bytes ≡ xs → 0 < length xs → p + length xs ≡ length bytes
  room xs h k =
      let e : length xs ≡ length bytes - p = ap length (sym h) ∙ length-drop p bytes in omega arith

  -- The byte at the `i`-th place behind the position.
  pub get_at : (i : ℕ) (xs : List ℕ) → drop p bytes ≡ xs → get_elem? bytes (p + i) ≡ get_elem? xs i
  get_at i xs h = sym (get_elem?-drop p i bytes) ∙ ap (λ zs. get_elem? zs i) h

  pub get_here : (xs : List ℕ) → drop p bytes ≡ xs → get_elem? bytes p ≡ get_elem? xs 0
  get_here xs h = ap (λ q. get_elem? bytes q) (omega arith) ∙ get_at 0 xs h

  pub u16_here :
      (a b : ℕ) (xs : List ℕ) → drop p bytes ≡ a ∷ b ∷ xs → memory_u16 bytes p ≡ some (be16 a b)
  unfolding memory_u16
  u16_here a b xs h =
      let k : p + length (a ∷ b ∷ xs) ≡ length bytes = room (a ∷ b ∷ xs) h (omega arith) in
      ground (arith, get_here (a ∷ b ∷ xs) h, get_at 1 (a ∷ b ∷ xs) h)

  pub u32_here :
      (a b c d : ℕ) (xs : List ℕ)
      → drop p bytes ≡ a ∷ b ∷ c ∷ d ∷ xs
      → memory_u32 bytes p ≡ some (be32 a b c d)
  unfolding memory_u32
  u32_here a b c d xs h =
      let all = a ∷ b ∷ c ∷ d ∷ xs in
      let k : p + length all ≡ length bytes = room all h (omega arith) in
      ground (arith, get_here all h, get_at 1 all h, get_at 2 all h, get_at 3 all h)

  pub slice_here :
      (xs ys : List ℕ)
      → drop p bytes ≡ xs ++ ys
      → 0 < length xs
      → slice bytes p (length xs) ≡ some xs
  unfolding slice
  slice_here xs ys h k =
      let room_left : p + length (xs ++ ys) ≡ length bytes =
        room (xs ++ ys) h (omega (arith, length-append xs ys)) in
      let fits : leb (p + length xs) (length bytes) ≡ true =
        le→leb (p + length xs) (length bytes) (omega (arith, length-append xs ys)) in
      rw (fits, h) (ap some (take-append xs ys))
