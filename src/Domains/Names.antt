-- ===== src/Domains/Names.antt =====
-- Domain names in zimascoped/src/collector/domain.rs: `domain_from_buffer` and `normalize_domain`. A
-- text is the list of its UTF-8 bytes.
use zima_scope.Abi.{domain_max_len}
use zima_scope.Base.{
  ℕ, ◌+◌, Bool, true, false, not, ◌&&◌, ◌||◌, Option, some, none, List, [], ◌∷◌, ltb, leb, ◌==◌,
  if◌then◌else◌, length, map,
}

abbrev pub domain_label_max_len : ℕ
domain_label_max_len = 63

abbrev pub dot : ℕ
dot = b'.'

-- The bounds of the bytes that must follow a leading byte of UTF-8; `none` where none may.
abbrev pub continuation : ℕ × ℕ
continuation = (0x80, 0xBF)

abbrev pub followers : ℕ → Option (List (ℕ × ℕ))
followers b =
    if ltb b 0x80
    then some []
    else if ltb b 0xC2
    then none
    else if ltb b 0xE0
    then some (continuation ∷ [])
    else if b == 0xE0
    then some ((0xA0, 0xBF) ∷ continuation ∷ [])
    else if b == 0xED
    then some ((0x80, 0x9F) ∷ continuation ∷ [])
    else if ltb b 0xF0
    then some (continuation ∷ continuation ∷ [])
    else if b == 0xF0
    then some ((0x90, 0xBF) ∷ continuation ∷ continuation ∷ [])
    else if ltb b 0xF4
    then some (continuation ∷ continuation ∷ continuation ∷ [])
    else if b == 0xF4
    then some ((0x80, 0x8F) ∷ continuation ∷ continuation ∷ [])
    else none

-- `str::from_utf8`: whether the bytes are the ones awaited and whole characters behind them.
unfoldable pub is_utf8 : List (ℕ × ℕ) → List ℕ → Bool
is_utf8 [] [] = true
is_utf8 (_ ∷ awaited) [] = false
is_utf8 ((low, high) ∷ awaited) (b ∷ rest) =
    let fits = is_utf8 awaited rest in if leb low b && leb b high then fits else false
is_utf8 [] (b ∷ rest) = elim (followers b) [ none ↦ false | some awaited ↦ is_utf8 awaited rest ]

-- `strip_suffix('.')`, or the whole text.
unfoldable pub strip_root : List ℕ → List ℕ
strip_root [] = []
strip_root (b ∷ []) = if b == dot then [] else b ∷ []
strip_root (b ∷ c ∷ rest) = b ∷ strip_root (c ∷ rest)

abbrev pub onto_first : ℕ → List (List ℕ) → List (List ℕ)
onto_first b [] = (b ∷ []) ∷ []
onto_first b (label ∷ labels) = (b ∷ label) ∷ labels

-- `split('.')`.
unfoldable pub split_dots : List ℕ → List (List ℕ)
split_dots [] = [] ∷ []
split_dots (b ∷ rest) =
    let labels = split_dots rest in if b == dot then [] ∷ labels else onto_first b labels

unfoldable pub labels_fit : List (List ℕ) → Bool
labels_fit [] = true
labels_fit (label ∷ labels) =
    let others = labels_fit labels in
    if length label == 0 || ltb domain_label_max_len (length label) then false else others

-- Whether a control character, a space or a slash is in the text. The control characters are U+0000
-- to U+001F, U+007F and U+0080 to U+009F, which UTF-8 writes as 0xC2 with 0x80 to 0x9F.
unfoldable pub has_forbidden : List ℕ → Bool
has_forbidden [] = false
has_forbidden (b ∷ []) = ltb b 0x20 || b == 0x7F || b == b' ' || b == b'/'
has_forbidden (b ∷ c ∷ rest) =
    let later = has_forbidden (c ∷ rest) in
    ltb b 0x20
    || b == 0x7F
    || b == b' '
    || b == b'/'
    || b == 0xC2 && leb 0x80 c && leb c 0x9F
    || later

abbrev pub lowercase : ℕ → ℕ
lowercase b = if leb b'A' b && leb b b'Z' then b + 32 else b

abbrev pub is_acceptable : List ℕ → Bool
is_acceptable trimmed =
    not (length trimmed == 0 || ltb domain_max_len (length trimmed))
    && labels_fit (split_dots trimmed)
    && not (has_forbidden trimmed)

unfoldable pub normalize_domain : List ℕ → Option (List ℕ)
normalize_domain raw =
    let trimmed = strip_root raw in
    if is_acceptable trimmed then some (map lowercase trimmed) else none

unfoldable pub domain_from_buffer : List ℕ → Option (List ℕ)
domain_from_buffer raw =
    if (length raw == 0 || ltb domain_max_len (length raw)) || not (is_utf8 [] raw)
    then none
    else normalize_domain raw
