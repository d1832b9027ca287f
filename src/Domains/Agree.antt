-- ===== src/Domains/Agree.antt =====
-- Which bytes `parse_dns_response` of zimascope-ebpf/src/domain.rs depends on.
use mathlib.Core.Path.{fun_ext}
use zima_scope.Base.{
  ℕ, zero, suc, ◌+◌, ◌≤◌, ◌≡◌, refl, ap, ◌∙◌, Bool, true, false, Option, some, none, List, [],
  arith, ◌==◌, ◌>>=◌, if◌then◌else◌, min, map, inl, inr, Bool-cases,
}
use zima_scope.Domains.Dns.{
  DnsAnswer, max_dns_answers, max_dns_labels, within, when, with_dot, top_bits, read_label,
  read_question_name, skip_answer_name, read_address, is_a_record, read_record, after_round,
  read_answers, read_response, parse_dns_response,
}
use zima_scope.Packet.Cursor.{PacketCursor}

-- Two cursors that read the same before `end`.
pub record AgreesBelow (end : ℕ) (c d : PacketCursor) : Type 0 where
  pub same_u8 : (p : ℕ) → p + 1 ≤ end → c.read_u8 p ≡ d.read_u8 p
  pub same_u16 : (p : ℕ) → p + 2 ≤ end → c.read_u16_be p ≡ d.read_u16_be p
  pub same_u32 : (p : ℕ) → p + 4 ≤ end → c.read_u32_be p ≡ d.read_u32_be p
  pub same_bytes : (p len : ℕ) → p + len ≤ end → c.read_bytes p len ≡ d.read_bytes p len

when-same :
    {A : Type 0} (test : Bool) {a b : Option A} → (test ≡ true → a ≡ b) → when test a ≡ when test b
unfolding when
when-same true h = h refl
when-same false h = refl

bind-same :
    {A B : Type 0} {o p : Option A} {f g : A → Option B}
    → o ≡ p
    → ((a : A) → f a ≡ g a)
    → (o >>= f) ≡ (p >>= g)
bind-same {f = f} {g = g} e h = rw (e, fun_ext h) refl

test-same :
    {A : Type 0} (test : Bool) {a b x y : A}
    → a ≡ x
    → b ≡ y
    → elim test [ true ↦ a | false ↦ b ] ≡ elim test [ true ↦ x | false ↦ y ]
test-same true h k = h
test-same false h k = k

le_of_within : (p len end : ℕ) → within p len end ≡ true → p + len ≤ end
le_of_within p len end h = ground arith

module _ (end : ℕ) (c d : PacketCursor) (same : AgreesBelow end c d) where
  read_label-same :
      (label_len position : ℕ) (name : List ℕ)
      → read_label c label_len position end name ≡ read_label d label_len position end name
  unfolding read_label
  read_label-same label_len position name = when-same _ (λ ok.
      bind-same {o = with_dot name} refl (λ dotted.
        when-same _
          (λ _. bind-same (same.same_bytes position label_len (ground arith)) (λ bytes. refl))))

  read_question_name-same :
      (fuel position : ℕ) (name : List ℕ)
      → read_question_name c fuel position end name ≡ read_question_name d fuel position end name
  unfolding read_question_name
  read_question_name-same zero position name = refl
  read_question_name-same (suc fuel) position name = when-same _ (λ inside.
      bind-same (same.same_u8 position (ground arith)) (λ label_len.
        test-same (label_len == 0) refl (
          bind-same (read_label-same label_len (position + 1) name)
            (λ longer. read_question_name-same fuel (position + 1 + label_len) longer))))

  skip_answer_name-same :
      (fuel position : ℕ)
      → skip_answer_name c fuel position end ≡ skip_answer_name d fuel position end
  unfolding skip_answer_name
  skip_answer_name-same zero position = refl
  skip_answer_name-same (suc fuel) position = when-same _ (λ inside.
      bind-same (same.same_u8 position (ground arith)) (λ label_len.
        test-same (label_len == 0) refl (
          test-same (top_bits label_len == 3) refl
            (when-same _ (λ _. skip_answer_name-same fuel (position + 1 + label_len))))))

  read_address-same :
      (position : ℕ) → position + 4 ≤ end → read_address c position ≡ read_address d position
  unfolding read_address
  read_address-same position h = bind-same (same.same_u8 position (omega arith)) (λ b0.
      bind-same (same.same_u8 (position + 1) (omega arith)) (λ b1.
        bind-same (same.same_u8 (position + 2) (omega arith))
          (λ b2. bind-same (same.same_u8 (position + 3) (omega arith)) (λ b3. refl))))

  if_a_record-same :
      (rtype class rdlength : ℕ) {a b : Option (List DnsAnswer × ℕ)}
      (other : Option (List DnsAnswer × ℕ))
      → (rdlength ≡ 4 → a ≡ b)
      → (if is_a_record c rtype class rdlength then a else other)
        ≡ (if is_a_record d rtype class rdlength then b else other)
  if_a_record-same rtype class rdlength other h =
      elim (Bool-cases (is_a_record c rtype class rdlength)) [
        | inl yes_a ↦ rw (yes_a) (h (ground arith))
        | inr no_a ↦ rw no_a refl
      ]

  read_record-same : (position : ℕ) → read_record c position end ≡ read_record d position end
  unfolding read_record
  read_record-same position = when-same _ (λ inside.
      let room : position + 10 ≤ end = le_of_within position 10 end inside in
      bind-same (same.same_u16 position (omega arith)) (λ rtype.
        bind-same (same.same_u16 (position + 2) (omega arith)) (λ class.
          bind-same (same.same_u32 (position + 4) (omega arith)) (λ ttl.
            bind-same (same.same_u16 (position + 8) (omega arith)) (λ rdlength. when-same _ (λ fits.
              let data_room : position + 10 + rdlength ≤ end =
                le_of_within (position + 10) rdlength end fits in
              if_a_record-same rtype class rdlength _ (λ four.
                bind-same (read_address-same (position + 10) (omega arith)) (λ address. refl))))))))

  read_answers-same :
      (rounds missing position : ℕ)
      → read_answers c rounds missing position end ≡ read_answers d rounds missing position end
  unfolding read_answers
  read_answers-same zero missing position = refl
  read_answers-same (suc rounds) zero position = refl
  read_answers-same (suc rounds) (suc missing) position =
      let later : (λ left next. read_answers c rounds left next end)
          ≡ (λ left next. read_answers d rounds left next end) =
        fun_ext (λ left. fun_ext (λ next. read_answers-same rounds left next)) in
      let round =
        bind-same (skip_answer_name-same max_dns_labels position)
          (λ behind. read_record-same behind) in
      ap
        (λ f.
          after_round f missing
            (do behind ← skip_answer_name c max_dns_labels position end; read_record c behind end))
        later
      ∙ ap (after_round (λ left next. read_answers d rounds left next end) missing) round

  read_response-same : (offset : ℕ) → read_response c offset end ≡ read_response d offset end
  unfolding read_response
  read_response-same offset = when-same _ (λ inside.
      let room : offset + 12 ≤ end = le_of_within offset 12 end inside in
      bind-same (same.same_u16 (offset + 2) (omega arith)) (λ flags. when-same _ (λ _.
        bind-same (same.same_u16 (offset + 4) (omega arith)) (λ questions. when-same _ (λ _.
          bind-same (same.same_u16 (offset + 6) (omega arith)) (λ answers. when-same _ (λ _.
            bind-same (read_question_name-same max_dns_labels (offset + 12) []) (λ (name, position).
              when-same _ (λ _.
                ap (λ found. some (name, found))
                  (read_answers-same max_dns_answers (min answers max_dns_answers)
                    (position + 4)))))))))))

  -- What `parse_dns_response` emits depends on nothing but the bytes before `end`: two cursors that
  -- read the same there, whatever they hold behind it, yield the same answers.
  pub parse_dns_response-same :
      (offset : ℕ) → parse_dns_response c offset end ≡ parse_dns_response d offset end
  unfolding parse_dns_response
  parse_dns_response-same offset =
      let emitted : Option (List ℕ × List DnsAnswer) → List (List ℕ × DnsAnswer) = λ response.
        elim response [
          | none ↦ []
          | some (name, answers) ↦ map (λ answer. (name, answer)) answers
        ] in
      ap emitted (read_response-same offset)
