-- ===== src/Domains/Dns.antt =====
-- DNS responses in zimascope-ebpf/src/domain.rs. The name buffer is the list of the bytes written to
-- it so far, and `emit` is the list of what is emitted, in order; the count that the source returns
-- is that list's length. A `break` ends the list.
use zima_scope.Abi.{domain_max_len}
use zima_scope.Base.{
  ℕ, zero, suc, ◌+◌, Bool, true, false, not, ◌||◌, ◌&&◌, Option, some, none, List, [], ◌∷◌, ◌++◌,
  ◌==◌, ltb, leb, if◌then◌else◌, ◌>>=◌, min, shr, low_bits, has_bit, checked_add, length, replicate,
  map,
}
use zima_scope.Packet.Cursor.{PacketCursor}

abbrev pub max_dns_answers : ℕ
max_dns_answers = 8

abbrev pub max_dns_labels : ℕ
max_dns_labels = 16

pub record DnsAnswer : Type 0 where
  pub ttl_secs : ℕ
  pub address : List ℕ

abbrev pub within : ℕ → ℕ → ℕ → Bool
within offset len end = elim (checked_add offset len) [ none ↦ false | some limit ↦ leb limit end ]

-- A `return None` behind a test.
unfoldable pub when : {A : Type 0} → Bool → Option A → Option A
when true rest = rest
when false rest = none

-- The two top bits of a length byte.
abbrev pub top_bits : ℕ → ℕ
top_bits label_len = low_bits (shr label_len 6) 2

-- A label separator where the name is not empty; `none` where it does not fit.
abbrev pub with_dot : List ℕ → Option (List ℕ)
with_dot [] = some []
with_dot (b ∷ name) =
    if leb domain_max_len (length (b ∷ name) + 1) then none else some ((b ∷ name) ++ b'.' ∷ [])

-- What is emitted from a round on, with at least one answer to emit: `none` is a `break`.
unfoldable pub after_round :
    (ℕ → ℕ → List DnsAnswer) → ℕ → Option (List DnsAnswer × ℕ) → List DnsAnswer
after_round read_on missing none = []
after_round read_on missing (some ([], next)) = read_on (suc missing) next
after_round read_on missing (some (answer ∷ more, next)) = answer ∷ read_on missing next

module _ (c : PacketCursor) where
  -- The name with the label at `position`, behind its length byte.
  unfoldable pub read_label : ℕ → ℕ → ℕ → List ℕ → Option (List ℕ)
  read_label label_len position end name =
      when
        (not (
          not (top_bits label_len == 0) || ltb 63 label_len || not (within position label_len end)))
        (do
          dotted ← with_dot name
          when (leb (length dotted + label_len) domain_max_len)
              (do bytes ← c.read_bytes position label_len; some (dotted ++ bytes)))

  -- `fuel` counts the labels that the loop may still read; the result is the name and the position
  -- behind it.
  unfoldable pub read_question_name : ℕ → ℕ → ℕ → List ℕ → Option (List ℕ × ℕ)
  read_question_name zero position end name = none
  read_question_name (suc fuel) position end name = when (within position 1 end) (do
    label_len ← c.read_u8 position
    (elim (label_len == 0) [
      | true ↦ some (name, position + 1)
      | false ↦ do
        longer ← read_label label_len (position + 1) end name
        read_question_name fuel (position + 1 + label_len) end longer
    ]))

  -- The position behind an owner name or a compression pointer; `none` is `false`.
  unfoldable pub skip_answer_name : ℕ → ℕ → ℕ → Option ℕ
  skip_answer_name zero position end = none
  skip_answer_name (suc fuel) position end = when (within position 1 end) (do
    label_len ← c.read_u8 position
    (elim (label_len == 0) [
      | true ↦ some (position + 1)
      | false ↦ elim (top_bits label_len == 3) [
        | true ↦ when (within (position + 1) 1 end) (some (position + 1 + 1))
        | false ↦
            when (not (ltb 63 label_len || not (within (position + 1) label_len end)))
              (skip_answer_name fuel (position + 1 + label_len) end)
      ]
    ]))

  -- The address of an A record of class IN; `none` where the bytes are not there.
  unfoldable pub read_address : ℕ → Option (List ℕ)
  read_address position = do
    b0 ← c.read_u8 position
    b1 ← c.read_u8 (position + 1)
    b2 ← c.read_u8 (position + 2)
    b3 ← c.read_u8 (position + 3)
    some (replicate 12 0 ++ b0 ∷ b1 ∷ b2 ∷ b3 ∷ [])

  abbrev pub is_a_record : ℕ → ℕ → ℕ → Bool
  is_a_record rtype class rdlength = rtype == 1 && class == 1 && rdlength == 4

  -- The rest of one round, behind the owner name: what is emitted, and the next position. `none` is
  -- a `break`.
  unfoldable pub read_record : ℕ → ℕ → Option (List DnsAnswer × ℕ)
  read_record position end = when (within position 10 end) (do
    rtype ← c.read_u16_be position
    class ← c.read_u16_be (position + 2)
    ttl ← c.read_u32_be (position + 4)
    rdlength ← c.read_u16_be (position + 8)
    when (within (position + 10) rdlength end) (
        if is_a_record rtype class rdlength
        then (do
          address ← read_address (position + 10)
          some (record { ttl_secs = ttl; address = address } ∷ [], position + 10 + rdlength))
        else some ([], position + 10 + rdlength)))

  -- The loop, with the rounds that are left and the answers still to emit.
  unfoldable pub read_answers : ℕ → ℕ → ℕ → ℕ → List DnsAnswer
  read_answers zero missing position end = []
  read_answers (suc rounds) zero position end = []
  read_answers (suc rounds) (suc missing) position end =
      after_round (λ left next. read_answers rounds left next end) missing
        (do behind ← skip_answer_name max_dns_labels position end; read_record behind end)

  -- The question name and the answers, where the header and the question are accepted.
  unfoldable pub read_response : ℕ → ℕ → Option (List ℕ × List DnsAnswer)
  read_response offset end = when (within offset 12 end) (do
    flags ← c.read_u16_be (offset + 2)
    when (has_bit flags 15) (do
      questions ← c.read_u16_be (offset + 4)
      when (not (questions == 0)) (do
        answers ← c.read_u16_be (offset + 6)
        when (ltb 0 answers) (do
          (name, position) ← read_question_name max_dns_labels (offset + 12) end []
          when (not (length name == 0 || not (within position 4 end))) (
              some (
                name,
                read_answers max_dns_answers (min answers max_dns_answers) (position + 4) end,
              ))))))

  -- What is emitted: the name with each answer.
  unfoldable pub parse_dns_response : ℕ → ℕ → List (List ℕ × DnsAnswer)
  parse_dns_response offset end = elim (read_response offset end) [
    | none ↦ []
    | some (name, answers) ↦ map (λ answer. (name, answer)) answers
  ]
