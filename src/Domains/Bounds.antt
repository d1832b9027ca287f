-- ===== src/Domains/Bounds.antt =====
-- The sizes of what `parse_dns_response` of zimascope-ebpf/src/domain.rs emits.
use zima_scope.Base.{
  ℕ, zero, suc, ◌+◌, ◌≤◌, ◌≡◌, refl, sym, ◌∙◌, true, Option, some, none, List, [], ◌∷◌, ◌++◌, arith,
  length, All, ◌==◌, leb, leb→le, not, ◌||◌, inl, inr, Bool-cases, length-append, take, drop,
  length-take, length-drop, map, min,
}
use zima_scope.Abi.{domain_max_len}
use zima_scope.Domains.Dns.{
  DnsAnswer, max_dns_answers, max_dns_labels, within, read_label, read_question_name,
  skip_answer_name, read_address, is_a_record, read_record, read_answers, after_round,
  read_response, parse_dns_response,
}
use zima_scope.Domains.Options.{
  Yields, none-Yields, some-Yields, when-Yields, bind-Yields, test-Yields, if-Yields, by_option,
}
use mathlib.Core.Path.{subst}
use mathlib.Core.Option.{some-injective}
use zima_scope.Packet.Cursor.{PacketCursor, memory_cursor, slice}

-- A copy fills the whole destination.
abbrev pub FillsCopies : PacketCursor → Type 0
FillsCopies c =
    (offset len : ℕ) (bytes : List ℕ) → c.read_bytes offset len ≡ some bytes → length bytes ≡ len

slice_inside :
    (bytes : List ℕ) (offset len : ℕ)
    → leb (offset + len) (length bytes) ≡ true
    → slice bytes offset len ≡ some (take len (drop offset bytes))
unfolding slice
slice_inside bytes offset len h = rw h refl

pub memory_cursor-FillsCopies : (bytes : List ℕ) → FillsCopies (memory_cursor bytes)
unfolding slice
memory_cursor-FillsCopies bytes offset len copy e =
    elim (Bool-cases (leb (offset + len) (length bytes))) [
      | inr outside ↦ absurd (ground (arith, e, outside))
      | inl inside ↦
          let fits = leb→le _ _ inside in
          let size : length (take len (drop offset bytes)) ≡ len =
            length-take len (drop offset bytes) (omega (arith, length-drop offset bytes)) in
          subst (λ xs. length xs ≡ len)
            (some-injective (take len (drop offset bytes)) copy
              (sym (slice_inside bytes offset len inside) ∙ e))
            size
    ]

abbrev IsShort : List ℕ → Type 0
IsShort name = length name ≤ domain_max_len

abbrev IsAddress : DnsAnswer → Type 0
IsAddress answer = length answer.address ≡ 16

abbrev pub IsEmitted : List ℕ × DnsAnswer → Type 0
IsEmitted (name, answer) =
    (1 ≤ length name) × (length name ≤ domain_max_len) × (length answer.address ≡ 16)

module _ (c : PacketCursor) (fills : FillsCopies c) where
  read_label-IsShort :
      (label_len position end : ℕ) (name : List ℕ)
      → Yields IsShort (read_label c label_len position end name)
  unfolding read_label
  read_label-IsShort label_len position end name = when-Yields _ (λ _. bind-Yields _ (λ dotted _.
      when-Yields _ (λ fits. bind-Yields _ (λ bytes copied.
        let size = fills position label_len bytes copied in
        let room = leb→le (length dotted + label_len) domain_max_len fits in
        some-Yields {a = dotted ++ bytes}
          (omega (arith, size, room, length-append dotted bytes))))))

  read_question_name-IsShort :
      (fuel position end : ℕ) (name : List ℕ)
      → IsShort name
      → Yields (λ found. IsShort (found.0)) (read_question_name c fuel position end name)
  unfolding read_question_name
  read_question_name-IsShort zero position end name k = none-Yields
  read_question_name-IsShort (suc fuel) position end name k =
      when-Yields (within position 1 end) (λ _. bind-Yields (c.read_u8 position) (λ label_len _.
        test-Yields (label_len == 0) (some-Yields k) (
          bind-Yields (read_label c label_len (position + 1) end name) (λ longer e.
            read_question_name-IsShort fuel (position + 1 + label_len) end longer
              ((read_label-IsShort label_len (position + 1) end name).yielded longer e)))))

  read_address-length :
      (position : ℕ) → Yields (λ address. length address ≡ 16) (read_address c position)
  unfolding read_address
  read_address-length position = bind-Yields (c.read_u8 position) (λ b0 _.
      bind-Yields (c.read_u8 (position + 1)) (λ b1 _.
        bind-Yields (c.read_u8 (position + 2))
          (λ b2 _. bind-Yields (c.read_u8 (position + 3)) (λ b3 _. some-Yields refl))))

  read_record-IsAddress :
      (position end : ℕ) → Yields (λ found. All IsAddress (found.0)) (read_record c position end)
  unfolding read_record
  read_record-IsAddress position end = when-Yields _ (λ _.
      bind-Yields (c.read_u16_be position) (λ rtype _.
        bind-Yields (c.read_u16_be (position + 2)) (λ class _.
          bind-Yields (c.read_u32_be (position + 4)) (λ ttl _.
            bind-Yields (c.read_u16_be (position + 8)) (λ rdlength _. when-Yields _ (λ _.
              if-Yields (is_a_record c rtype class rdlength)
                (bind-Yields (read_address c (position + 10)) (λ address e.
                  let size : length address ≡ 16 =
                    (read_address-length (position + 10)).yielded address e in
                  some-Yields
                    {a = (
                      record { ttl_secs = ttl; address = address } ∷ [],
                      position + 10 + rdlength,
                    )}
                    (size, tt)))
                (some-Yields {a = ([], position + 10 + rdlength)} tt)))))))

  after_round-IsAddress :
      (read_on : ℕ → ℕ → List DnsAnswer)
      → ((left next : ℕ) → All IsAddress (read_on left next) × (length (read_on left next) ≤ left))
      → (missing : ℕ) (round : Option (List DnsAnswer × ℕ))
      → Yields (λ found. All IsAddress (found.0)) round
      → All IsAddress (after_round read_on missing round)
        × (length (after_round read_on missing round) ≤ suc missing)
  unfolding after_round
  after_round-IsAddress read_on h missing none k = (tt, omega arith)
  after_round-IsAddress read_on h missing (some ([], next)) k = h (suc missing) next
  after_round-IsAddress read_on h missing (some (answer ∷ more, next)) k =
      let found = k.yielded (answer ∷ more, next) refl in
      let (others, size) = h missing next in ((found.0, others), omega arith)

  read_answers-IsAddress :
      (rounds missing position end : ℕ)
      → All IsAddress (read_answers c rounds missing position end)
        × (length (read_answers c rounds missing position end) ≤ missing)
  unfolding read_answers
  read_answers-IsAddress zero missing position end = (tt, omega arith)
  read_answers-IsAddress (suc rounds) zero position end = (tt, omega arith)
  read_answers-IsAddress (suc rounds) (suc missing) position end =
      after_round-IsAddress _ (λ left next. read_answers-IsAddress rounds left next end) missing _
        (bind-Yields (skip_answer_name c max_dns_labels position end)
          (λ behind _. read_record-IsAddress behind end))

  read_response-Bounded :
      (offset end : ℕ)
      → Yields
          (λ (name, answers).
            (1 ≤ length name)
            × (length name ≤ domain_max_len)
            × All IsAddress answers
            × (length answers ≤ max_dns_answers))
          (read_response c offset end)
  unfolding read_response
  read_response-Bounded offset end = when-Yields _ (λ _.
      bind-Yields (c.read_u16_be (offset + 2)) (λ flags _. when-Yields _ (λ _.
        bind-Yields (c.read_u16_be (offset + 4)) (λ questions _. when-Yields _ (λ _.
          bind-Yields (c.read_u16_be (offset + 6)) (λ answers _. when-Yields _ (λ _.
            bind-Yields (read_question_name c max_dns_labels (offset + 12) end [])
              (λ (name, position) e.
                when-Yields (not (length name == 0 || not (within position 4 end))) (λ accepted.
                  let room : length name ≤ domain_max_len =
                    (read_question_name-IsShort max_dns_labels (offset + 12) end []
                        (omega arith)).yielded
                      (name, position) e in
                  let (addresses, count) =
                    read_answers-IsAddress max_dns_answers (min answers max_dns_answers)
                      (position + 4) end in
                  some-Yields
                    {a = (
                      name,
                      read_answers c max_dns_answers (min answers max_dns_answers) (position + 4)
                          end,
                    )}
                    (ground arith, room, addresses, omega arith))))))))))

  map-IsEmitted :
      (name : List ℕ) (answers : List DnsAnswer)
      → 1 ≤ length name
      → length name ≤ domain_max_len
      → All IsAddress answers
      → All IsEmitted (map (λ answer. (name, answer)) answers)
        × (length {A = List ℕ × DnsAnswer} (map (λ answer. (name, answer)) answers)
            ≡ length answers)
  map-IsEmitted name [] h k g = (tt, refl)
  map-IsEmitted name (answer ∷ answers) h k (one, g) =
      let (more, e) = map-IsEmitted name answers h k g in (((h, k, one), more), omega arith)

  -- Through a cursor whose copies fill their destination, a message yields at most eight answers, each with a name of 1 to 253
  -- bytes, which fits the sample's buffer, and an address of 16 bytes.
  pub parse_dns_response-IsEmitted :
      (offset end : ℕ)
      → All IsEmitted (parse_dns_response c offset end)
        × (length (parse_dns_response c offset end) ≤ max_dns_answers)
  unfolding parse_dns_response
  parse_dns_response-IsEmitted offset end =
      by_option (λ emitted. All IsEmitted emitted × (length emitted ≤ max_dns_answers))
        (read_response c offset end) (tt, omega arith)
        (λ (name, answers) e.
          let (h, k, addresses, few) =
            (read_response-Bounded offset end).yielded (name, answers) e in
          let (all, size) = map-IsEmitted name answers h k addresses in (all, omega arith))
