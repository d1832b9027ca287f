-- ===== src/Tests/Fingerprints.antt =====
-- A small fingerprint library and payloads for it.
use zima_scope.Base.{
  ℕ, ◌≤◌, ◌≡◌, refl, arith, Bool, some, none, true, Option, List, [], ◌∷◌, length, All,
}
use zima_scope.Fingerprints.Question.{scan_question, after_scan, is_dns_query}
use zima_scope.Fingerprints.Termination.{is_dns_query-ends}
use zima_scope.Fingerprints.Match.{
  Predicate, CompiledRule, Compare, be, dns_query, contains, compare_matches, starts_with,
  same_bytes, any_prefix, big_endian, little_endian, read_int, predicate_matches, all_match,
  classify,
}
use zima_scope.Fingerprints.Compile.{
  PredicateSpec, RuleSpec, accepted, unless, utf8, trim_start, trim_end, is_empty, compact,
  hex_pairs, parse_hex, compile_texts, compile_predicate, compile_predicates, compile_rule,
  compile_rules, from_document, max_rules,
}
use zima_scope.Fingerprints.Valid.{IsValidRule, from_document-IsValidRule}
use zima_scope.Fingerprints.First.{Explained, classify-Explained}
use zima_scope.Fingerprints.Library.{FingerprintLibrary, from_json}
use zima_scope.Packet.Cursor.{slice}

matcher : Unit {0}
unfolding scan_question after_scan is_dns_query contains compare_matches starts_with same_bytes
    any_prefix big_endian little_endian read_int predicate_matches all_match classify slice
matcher = tt

compiler : Unit {0}
unfolding unless utf8 trim_start trim_end is_empty compact hex_pairs parse_hex compile_texts
    compile_predicate compile_predicates compile_rule compile_rules from_document
compiler = tt

abbrev equals : ℕ → Compare
equals value = record {
  eq = some value;
  ne = none;
  lt = none;
  lte = none;
  gt = none;
  gte = none;
  among = none;
}

-- `PG`: a length of eight and the code of an encryption request.
abbrev document : List RuleSpec
document =
    record {
      service = b' ' ∷ b'P' ∷ b'G' ∷ [];
      predicates =
          PredicateSpec.min_len 8
          ∷ PredicateSpec.int 0 4 be (equals 8)
          ∷ PredicateSpec.bytes 4 (b'0' ∷ b'4' ∷ b' ' ∷ b'd' ∷ b'2' ∷ [])
          ∷ [];
    }
    ∷ record {
      service = b'D' ∷ b'N' ∷ b'S' ∷ [];
      predicates = PredicateSpec.builtin dns_query ∷ [];
    }
    ∷ []

abbrev library : List CompiledRule
library =
    record {
      service = b'P' ∷ b'G' ∷ [];
      predicates =
          Predicate.min_len 8
          ∷ Predicate.int 0 4 be (equals 8)
          ∷ Predicate.bytes 4 (4 ∷ 0xD2 ∷ [])
          ∷ [];
    }
    ∷ record { service = b'D' ∷ b'N' ∷ b'S' ∷ []; predicates = Predicate.builtin dns_query ∷ [] }
    ∷ []

compiled_document : from_document document ≡ accepted library
unfolding compiler
compiled_document = refl

from_document-IsValidRule_example :
    All IsValidRule library
    × (length library ≡ length document)
    × (1 ≤ length library)
    × (length library ≤ max_rules)
from_document-IsValidRule_example = from_document-IsValidRule document library compiled_document

abbrev encryption_request : List ℕ
encryption_request = 0 ∷ 0 ∷ 0 ∷ 8 ∷ 4 ∷ 0xD2 ∷ 0x16 ∷ 0x2F ∷ []

-- A question for `a` of class IN.
abbrev question : List ℕ
question = 0 ∷ 1 ∷ 1 ∷ 0 ∷ 0 ∷ 1 ∷ 0 ∷ 0 ∷ 0 ∷ 0 ∷ 0 ∷ 0 ∷ 1 ∷ b'a' ∷ 0 ∷ 0 ∷ 1 ∷ 0 ∷ 1 ∷ []

encryption_service : classify library encryption_request ≡ some (b'P' ∷ b'G' ∷ [])
unfolding matcher
encryption_service = refl

question_service : classify library question ≡ some (b'D' ∷ b'N' ∷ b'S' ∷ [])
unfolding matcher
question_service = refl

classify-Explained_example : Explained library question (classify library question)
classify-Explained_example = classify-Explained library question

is_dns_query-ends_example : (answer : Bool) × (is_dns_query 21 question ≡ some answer)
is_dns_query-ends_example = is_dns_query-ends 21 question (omega arith)

-- A reader of documents that knows one text.
abbrev reader : List ℕ → Option (List RuleSpec)
reader [] = some document
reader (c ∷ text) = none

abbrev shipped : FingerprintLibrary
shipped = record { rules = library; raw = []; custom = true }

shipped_accepted : from_json reader [] [] ≡ accepted shipped
unfolding compiler from_json
shipped_accepted = refl
