-- ===== src/Domains/RoundTrip.antt =====
-- What `parse_dns_response` reads from a message of `dns_response`.
use zima_scope.Base.{
  ℕ, zero, suc, ◌+◌, ◌/◌, ◌%◌, ◌≤◌, ◌<◌, ◌≡◌, refl, ap, sym, ◌∙◌, Bool, true, false, Option, some,
  none, List, [], ◌∷◌, ◌++◌, arith, length, get_elem?, take, drop, be16, be32, map, min, All,
  u64_mod, ◌==◌, ltb, le→leb, not, ◌||◌, ◌>>=◌, length-append,
}
use zima_scope.Abi.{domain_max_len}
use zima_scope.Domains.Dns.{
  when, after_round, DnsAnswer, max_dns_answers, max_dns_labels, within, with_dot, top_bits,
  read_label, read_question_name, skip_answer_name, read_address, read_record, read_answers,
  read_response, parse_dns_response,
}
use mathlib.Core.Path.{subst, ap₂}
use mathlib.Core.List.{append_assoc}
use zima_scope.Domains.Reading.{
  within_of_le, ahead, behind, room, get_at, get_here, u16_here, u32_here, slice_here,
}
use zima_scope.Packet.Cursor.{memory_cursor}
use zima_scope.Domains.Message.{
  WireAnswer, encode_labels, encode_record, encode_answers, dns_response, joined, appended,
  answer_of, IsLabel,
}
use zima_scope.Domains.Message.Names.{length-appended, dotted-fits, joined-appended}

module _ (bytes : List ℕ) (sane : length bytes < u64_mod) where
  skip-pointer :
      (p fuel : ℕ) (rest : List ℕ)
      → drop p bytes ≡ 0xC0 ∷ 0x0C ∷ rest
      → skip_answer_name (memory_cursor bytes) (suc fuel) p (length bytes) ≡ some (p + 1 + 1)
  unfolding when skip_answer_name
  skip-pointer p fuel rest h =
      let total : p + length (0xC0 ∷ 0x0C ∷ rest) ≡ length bytes = room bytes p _ h (omega arith) in
      let w1 : within p 1 (length bytes) ≡ true =
        within_of_le p 1 (length bytes) (omega arith) sane in
      let w2 : within (p + 1) 1 (length bytes) ≡ true =
        within_of_le (p + 1) 1 (length bytes) (omega arith) sane in
      rw (w1, get_here bytes p _ h, w2) refl

  -- The bytes of an answer behind its owner name.
  record-here :
      (p : ℕ) (a : WireAnswer) (rest : List ℕ)
      → a.ttl < 4294967296
      → drop p bytes ≡ encode_record a ++ rest
      → read_record (memory_cursor bytes) p (length bytes) ≡ some (answer_of a ∷ [], p + 10 + 4)
  unfolding when encode_record answer_of read_record read_address
  record-here p a rest small h =
      let total : p + length (encode_record a ++ rest) ≡ length bytes =
        room bytes p _ h (omega arith) in
      let w1 : within p 10 (length bytes) ≡ true =
        within_of_le p 10 (length bytes) (omega arith) sane in
      let w2 : within (p + 10) 4 (length bytes) ≡ true =
        within_of_le (p + 10) 4 (length bytes) (omega arith) sane in
      let ttl_back : be32 (a.ttl / 16777216 % 256) (a.ttl / 65536 % 256) (a.ttl / 256 % 256)
            (a.ttl % 256)
          ≡ a.ttl =
        omega arith in
      let rdata = ahead bytes p 10 _ h in
      rw
        (
          w1,
          u16_here bytes p _ _ _ h,
          u16_here bytes (p + 2) _ _ _ (ahead bytes p 2 _ h),
          u32_here bytes (p + 4) _ _ _ _ _ (ahead bytes p 4 _ h),
          u16_here bytes (p + 8) _ _ _ (ahead bytes p 8 _ h),
          w2,
          get_here bytes (p + 10) _ rdata,
          get_at bytes (p + 10) 1 _ rdata,
          get_at bytes (p + 10) 2 _ rdata,
          get_at bytes (p + 10) 3 _ rdata,
          ttl_back,
        )
        refl

  answers-here :
      (answers : List WireAnswer) (rounds missing p : ℕ)
      → missing ≤ rounds
      → missing ≤ length answers
      → All (λ a. a.ttl < 4294967296) answers
      → drop p bytes ≡ encode_answers answers
      → read_answers (memory_cursor bytes) rounds missing p (length bytes)
        ≡ map answer_of (take missing answers)
  unfolding read_answers after_round encode_answers encode_record
  answers-here answers zero zero p h k small e = refl
  answers-here answers (suc rounds) zero p h k small e = refl
  answers-here [] (suc rounds) (suc missing) p h k small e = absurd (omega arith)
  answers-here answers zero (suc missing) p h k small e = absurd (omega arith)
  answers-here (a ∷ answers) (suc rounds) (suc missing) p h k (one, small) e =
      let record_at = ahead bytes (p + 1) 1 _ (ahead bytes p 1 _ e) in
      let round : (skip_answer_name (memory_cursor bytes) max_dns_labels p (length bytes)
            >>= λ owner_end. read_record (memory_cursor bytes) owner_end (length bytes))
          ≡ some (answer_of a ∷ [], p + 1 + 1 + 10 + 4) =
        rw (skip-pointer p 15 _ e) (record-here (p + 1 + 1) a _ one record_at) in
      ap
        (after_round
          (λ left next. read_answers (memory_cursor bytes) rounds left next (length bytes)) missing)
        round
      ∙ (ap (λ more. answer_of a ∷ more)
          (answers-here answers rounds missing (p + 1 + 1 + 10 + 4) (omega arith) (omega arith)
            small (ahead bytes (p + 1 + 1 + 10) 4 _ (ahead bytes (p + 1 + 1) 10 _ record_at))))

  label-here :
      (p : ℕ) (label name dotted rest : List ℕ)
      → 1 ≤ length label
      → length label ≤ 63
      → drop p bytes ≡ label ++ rest
      → with_dot name ≡ some dotted
      → length dotted + length label ≤ domain_max_len
      → read_label (memory_cursor bytes) (length label) p (length bytes) name
        ≡ some (dotted ++ label)
  unfolding when read_label
  label-here p label name dotted rest h1 h2 e e1 fits =
      let inside = length-append label rest in
      let total : p + length (label ++ rest) ≡ length bytes = room bytes p _ e (omega arith) in
      let w : within p (length label) (length bytes) ≡ true =
        within_of_le p (length label) (length bytes) (omega arith) sane in
      let high : (not (top_bits (length label) == 0) || ltb 63 (length label)) ≡ false =
        ground arith in
      rw (high, w, e1) (rw (le→leb _ _ fits, slice_here bytes p label _ e (omega arith)) refl)

  -- The labels that are left, with the name read so far.
  name-here :
      (labels : List (List ℕ)) (fuel p : ℕ) (name rest : List ℕ)
      → All IsLabel labels
      → length labels < fuel
      → length (appended name labels) ≤ domain_max_len
      → drop p bytes ≡ encode_labels labels ++ rest
      → read_question_name (memory_cursor bytes) fuel p (length bytes) name
        ≡ some (appended name labels, p + length (encode_labels labels))
  unfolding when read_question_name encode_labels appended
  name-here labels zero p name rest good h k e = absurd (omega arith)
  name-here [] (suc fuel) p name rest good h k e =
      let total : p + length (0 ∷ rest) ≡ length bytes = room bytes p _ e (omega arith) in
      let w : within p 1 (length bytes) ≡ true =
        within_of_le p 1 (length bytes) (omega arith) sane in
      rw (w, get_here bytes p _ e) refl
  name-here (label ∷ labels) (suc fuel) p name rest ((h1, h2), good) h k e =
      let (dotted, e1, fits, e2) = dotted-fits name label labels h1 k in
      let there : drop p bytes ≡ length label ∷ (label ++ (encode_labels labels ++ rest)) =
        e ∙ ap (λ xs. length label ∷ xs) (append_assoc label (encode_labels labels) rest) in
      let next = ahead bytes p 1 _ there in
      let total : p + suc (length (label ++ (encode_labels labels ++ rest))) ≡ length bytes =
        room bytes p _ there (omega arith) in
      let inside = length-append label (encode_labels labels ++ rest) in
      let w1 : within p 1 (length bytes) ≡ true =
        within_of_le p 1 (length bytes) (omega arith) sane in
      let byte : get_elem? bytes p ≡ some (length label) = get_here bytes p _ there in
      let longer = label-here (p + 1) label name dotted _ h1 h2 next e1 fits in
      let more =
        name-here labels fuel (p + 1 + length label) (dotted ++ label) rest good (omega arith)
          (subst (λ xs. length xs ≤ domain_max_len) e2 k) (behind bytes (p + 1) label _ next) in
      let z : (length label == 0) ≡ false = ground arith in
      let read_on : Bool → Option (List ℕ × ℕ) = λ done. elim done [
        | true ↦ some (name, p + 1)
        | false ↦ do
          name ← read_label (memory_cursor bytes) (length label) (p + 1) (length bytes) name
          read_question_name (memory_cursor bytes) fuel (p + 1 + length label) (length bytes) name
      ] in
      let ends : p + 1 + length label + length (encode_labels labels)
          ≡ p + length (encode_labels (label ∷ labels)) =
        omega (arith, length-append label (encode_labels labels)) in
      let found : read_on false
          ≡ some (appended name (label ∷ labels), p + length (encode_labels (label ∷ labels))) =
        rw longer (more ∙ ap some (ap₂ (λ x y. (x, y)) (sym e2) ends)) in
      rw (w1, byte) (ap read_on z ∙ found)

module _ (bytes : List ℕ) (offset : ℕ) (label : List ℕ) (labels : List (List ℕ))
    (answers : List WireAnswer) (sane : length bytes < u64_mod)
    (e : drop offset bytes ≡ dns_response (label ∷ labels) answers)
    (good : All IsLabel (label ∷ labels)) (few : length (label ∷ labels) < max_dns_labels)
    (short : length (joined (label ∷ labels)) ≤ domain_max_len) (some_answers : 0 < length answers)
    (many : length answers < 65536) (small : All (λ a. a.ttl < 4294967296) answers) where
  response-here :
      read_response (memory_cursor bytes) offset (length bytes)
      ≡ some (
        joined (label ∷ labels),
        map answer_of (take (min (length answers) max_dns_answers) answers),
      )
  unfolding when read_response dns_response appended
  response-here =
      let n = length answers in
      let name = joined (label ∷ labels) in
      let total : offset + length (dns_response (label ∷ labels) answers) ≡ length bytes =
        room bytes offset _ e (omega arith) in
      let count_back : be16 (n / 256 % 256) (n % 256) ≡ n = omega arith in
      let question = ahead bytes offset 12 _ e in
      let whole = joined-appended label labels (good.0.0) in
      let read_name =
        name-here bytes sane (label ∷ labels) max_dns_labels (offset + 12) [] _ good few
          (subst (λ xs. length xs ≤ domain_max_len) (sym whole) short) question in
      let behind_name = behind bytes (offset + 12) (encode_labels (label ∷ labels)) _ question in
      let from_name : offset
            + 12
            + length (encode_labels (label ∷ labels))
            + length (0 ∷ 1 ∷ 0 ∷ 1 ∷ encode_answers answers)
          ≡ length bytes =
        room bytes _ _ behind_name (omega arith) in
      let w1 : within offset 12 (length bytes) ≡ true =
        within_of_le offset 12 (length bytes) (omega arith) sane in
      let w2 : within (offset + 12 + length (encode_labels (label ∷ labels))) 4 (length bytes)
          ≡ true =
        within_of_le _ 4 (length bytes) (omega arith) sane in
      let nonempty : ltb 0 n ≡ true = ground arith in
      let at_least = length-appended label labels in
      let longer : 1 ≤ length name =
        subst (λ xs. 1 ≤ length xs) whole (omega (arith, at_least, good.0.0)) in
      let named : (length name == 0) ≡ false = ground arith in
      let emitted =
        answers-here bytes sane answers max_dns_answers (min n max_dns_answers)
          (offset + 12 + length (encode_labels (label ∷ labels)) + 4) (omega arith) (omega arith)
          small (ahead bytes _ 4 _ behind_name) in
      rw (w1, u16_here bytes (offset + 2) _ _ _ (ahead bytes offset 2 _ e))
        (rw (u16_here bytes (offset + 4) _ _ _ (ahead bytes offset 4 _ e)) (
          rw (u16_here bytes (offset + 6) _ _ _ (ahead bytes offset 6 _ e), count_back)
            (rw (nonempty, read_name) (rw (whole) (rw (named, w2, emitted) refl)))))

  -- A message of `dns_response` at the end of a frame, for a name of at most 15 labels, each of 1 to
  -- 63 bytes and the whole of at most 253, and for 1 to 65535 answers with TTLs of 32 bits: the parser
  -- emits the name, the labels joined by dots, with the TTL and the address of each of the first
  -- eight answers, in order.
  pub dns_response-parse_dns_response :
      parse_dns_response (memory_cursor bytes) offset (length bytes)
      ≡ map
          (λ answer. (joined (label ∷ labels), answer))
          (map answer_of (take (min (length answers) max_dns_answers) answers))
  unfolding parse_dns_response
  dns_response-parse_dns_response =
      let emitted : Option (List ℕ × List DnsAnswer) → List (List ℕ × DnsAnswer) = λ response.
        elim response [ none ↦ [] | some (name, found) ↦ map (λ answer. (name, answer)) found ] in
      ap emitted response-here
