-- ===== src/Fingerprints/Question.antt =====
-- `is_dns_query` of zimascoped/src/collector/fingerprint.rs. Its loop has no bound of its own, so it runs
-- on fuel here; `none` says that the fuel is gone.
use zima_scope.Base.{
  ℕ, zero, suc, ◌+◌, Bool, true, false, not, ◌&&◌, ◌||◌, Option, some, none, List, ◌==◌, ltb, leb,
  shr, low_bits, be16, length, get_elem?, ◌>>=◌,
}

abbrev pub max_labels : ℕ
max_labels = 20

-- How the loop ends: behind the zero byte, or with `return false`.
pub data Scan : Type 0 where
  ended : ℕ → Scan
  malformed : Scan

unfoldable pub scan_question : ℕ → List ℕ → ℕ → ℕ → Option Scan
scan_question zero payload position labels = none
scan_question (suc fuel) payload position labels = elim (get_elem? payload position) [
  | none ↦ some malformed
  | some label_len ↦ elim (label_len == 0) [
    | true ↦ some (ended (position + 1))
    | false ↦ elim (ltb 63 label_len) [
      | true ↦ some malformed
      | false ↦
          elim (ltb max_labels (labels + 1) || ltb (length payload) (position + 1 + label_len)) [
            | true ↦ some malformed
            | false ↦ scan_question fuel payload (position + 1 + label_len) (labels + 1)
          ]
    ]
  ]
]

-- The checks of the header, up to the loop.
abbrev pub header_fits : List ℕ → Option Bool
header_fits payload = do
  b2 ← get_elem? payload 2
  b3 ← get_elem? payload 3
  b4 ← get_elem? payload 4
  b5 ← get_elem? payload 5
  some (low_bits (shr (be16 b2 b3) 11) 4 == 0 && not (be16 b4 b5 == 0 || ltb 4 (be16 b4 b5)))

-- The checks behind the loop.
abbrev pub class_fits : List ℕ → ℕ → Option Bool
class_fits payload position = do
  high ← get_elem? payload (position + 2)
  low ← get_elem? payload (position + 3)
  some (be16 high low == 1 || be16 high low == 255)

abbrev pub is_yes : Option Bool → Bool
is_yes none = false
is_yes (some answer) = answer

unfoldable pub after_scan : List ℕ → Scan → Bool
after_scan payload malformed = false
after_scan payload (ended position) =
    leb (position + 4) (length payload) && is_yes (class_fits payload position)

-- `none` is an answer that the fuel does not suffice for.
unfoldable pub is_dns_query : ℕ → List ℕ → Option Bool
is_dns_query fuel payload = elim (ltb (length payload) 13 || not (is_yes (header_fits payload))) [
  | true ↦ some false
  | false ↦ do scan ← scan_question fuel payload 12 0; some (after_scan payload scan)
]

-- A round for each of the labels allowed, one for the label too many, and one for the end.
abbrev pub enough_rounds : ℕ
enough_rounds = 21
