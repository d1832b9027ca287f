-- ===== src/Domains/Message.antt =====
-- The messages of `dns_response` in the tests of zimascope-ebpf/src/domain.rs, which takes a name by
-- its labels and a list of A records.
pub mod Names
use zima_scope.Base.{ℕ, ◌/◌, ◌%◌, ◌≤◌, List, [], ◌∷◌, ◌++◌, length, replicate}
use zima_scope.Domains.Dns.{DnsAnswer}

pub record WireAnswer : Type 0 where
  pub ttl : ℕ
  pub a0 : ℕ
  pub a1 : ℕ
  pub a2 : ℕ
  pub a3 : ℕ

unfoldable pub encode_labels : List (List ℕ) → List ℕ
encode_labels [] = 0 ∷ []
encode_labels (label ∷ labels) = length label ∷ label ++ encode_labels labels

-- An A record behind its owner name.
unfoldable pub encode_record : WireAnswer → List ℕ
encode_record a =
    0
    ∷ 1
    ∷ 0
    ∷ 1
    ∷ a.ttl / 16777216 % 256
    ∷ a.ttl / 65536 % 256
    ∷ a.ttl / 256 % 256
    ∷ a.ttl % 256
    ∷ 0
    ∷ 4
    ∷ a.a0
    ∷ a.a1
    ∷ a.a2
    ∷ a.a3
    ∷ []

unfoldable pub encode_answers : List WireAnswer → List ℕ
encode_answers [] = []
encode_answers (a ∷ answers) = 0xC0 ∷ 0x0C ∷ encode_record a ++ encode_answers answers

unfoldable pub dns_response : List (List ℕ) → List WireAnswer → List ℕ
dns_response labels answers =
    0x12
      ∷ 0x34
      ∷ 0x81
      ∷ 0x80
      ∷ 0
      ∷ 1
      ∷ length answers / 256 % 256
      ∷ length answers % 256
      ∷ 0
      ∷ 0
      ∷ 0
      ∷ 0
      ∷ encode_labels labels
    ++ 0 ∷ 1 ∷ 0 ∷ 1 ∷ encode_answers answers

-- The name of the labels, separated by dots.
unfoldable pub joined : List (List ℕ) → List ℕ
joined [] = []
joined (label ∷ []) = label
joined (label ∷ next ∷ labels) = label ++ b'.' ∷ joined (next ∷ labels)

-- A name with further labels.
unfoldable pub appended : List ℕ → List (List ℕ) → List ℕ
appended name [] = name
appended [] (label ∷ labels) = appended label labels
appended (b ∷ name) (label ∷ labels) = appended (((b ∷ name) ++ b'.' ∷ []) ++ label) labels

unfoldable pub answer_of : WireAnswer → DnsAnswer
answer_of a = record {
  ttl_secs = a.ttl;
  address = replicate 12 0 ++ a.a0 ∷ a.a1 ∷ a.a2 ∷ a.a3 ∷ [];
}

abbrev pub IsLabel : List ℕ → Type 0
IsLabel label = (1 ≤ length label) × (length label ≤ 63)
