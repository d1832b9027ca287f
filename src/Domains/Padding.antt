-- ===== src/Domains/Padding.antt =====
-- Bytes behind the payload, such as the padding of a short frame.
use zima_scope.Base.{
  ℕ, zero, suc, ◌+◌, ◌≤◌, ◌<◌, ◌≡◌, refl, ap, arith, List, [], ◌∷◌, ◌++◌, length, get_elem?, take,
  drop, length-append,
}
use zima_scope.Domains.Agree.{AgreesBelow}
use zima_scope.Packet.Cursor.{memory_cursor, memory_u16, memory_u32, slice}

get-append : (xs ys : List ℕ) (i : ℕ) → i < length xs → get_elem? (xs ++ ys) i ≡ get_elem? xs i
get-append [] ys i h = absurd (omega arith)
get-append (x ∷ xs) ys zero h = refl
get-append (x ∷ xs) ys (suc i) h = get-append xs ys i (omega arith)

take-append_le : (len : ℕ) (xs ys : List ℕ) → len ≤ length xs → take len (xs ++ ys) ≡ take len xs
take-append_le zero xs ys h = refl
take-append_le (suc len) [] ys h = absurd (omega arith)
take-append_le (suc len) (x ∷ xs) ys h = ap (λ zs. x ∷ zs) (take-append_le len xs ys (omega arith))

take-drop :
    (p len : ℕ) (xs ys : List ℕ)
    → p + len ≤ length xs
    → take len (drop p (xs ++ ys)) ≡ take len (drop p xs)
take-drop zero len xs ys h = take-append_le len xs ys (omega arith)
take-drop (suc p) zero xs ys h = refl
take-drop (suc p) (suc len) [] ys h = absurd (omega arith)
take-drop (suc p) (suc len) (x ∷ xs) ys h = take-drop p (suc len) xs ys (omega arith)

module _ (payload padding : List ℕ) where
  pub padding-AgreesBelow :
      AgreesBelow (length payload) (memory_cursor (payload ++ padding)) (memory_cursor payload)
  unfolding memory_u16 memory_u32 slice
  padding-AgreesBelow = record {
    same_u8 = λ p h. get-append payload padding p (omega arith);
    same_u16 = λ p h. ground (
      arith,
      length-append payload padding,
      get-append payload padding p,
      get-append payload padding (p + 1),
    );
    same_u32 = λ p h. ground (
      arith,
      length-append payload padding,
      get-append payload padding p,
      get-append payload padding (p + 1),
      get-append payload padding (p + 2),
      get-append payload padding (p + 3),
    );
    same_bytes =
        λ p len h. ground (arith, length-append payload padding, take-drop p len payload padding);
  }
