-- ===== src/Fingerprints/Termination.antt =====
-- The loop of `is_dns_query` of zimascoped/src/collector/fingerprint.rs ends.
use zima_scope.Base.{
  ℕ, zero, suc, ◌+◌, ◌≤◌, ◌<◌, ◌≡◌, refl, arith, Bool, false, ◌||◌, not, Option, some, List, ◌==◌,
  ltb, length, get_elem?,
}
use zima_scope.Domains.Options.{by_test, by_option}
use zima_scope.Fingerprints.Question.{
  max_labels, enough_rounds, ended, malformed, scan_question, after_scan, header_fits, is_yes,
  is_dns_query,
}

abbrev Answers : {A : Type 0} → Option A → Type 0
Answers {A} o = (answer : A) × (o ≡ some answer)

-- More fuel than there are labels left to allow.
scan_question-Answers :
    (fuel : ℕ) (payload : List ℕ) (position labels : ℕ)
    → max_labels < fuel + labels
    → labels ≤ max_labels
    → Answers (scan_question fuel payload position labels)
unfolding scan_question
scan_question-Answers zero payload position labels h k = absurd (omega arith)
scan_question-Answers (suc fuel) payload position labels h k =
    by_option Answers (get_elem? payload position) (malformed, refl)
      (λ label_len _.
        by_test Answers (label_len == 0) (λ _. (ended (position + 1), refl))
          (λ _.
            by_test Answers (ltb 63 label_len) (λ _. (malformed, refl))
              (λ _.
                by_test Answers
                  (ltb max_labels (labels + 1) || ltb (length payload) (position + 1 + label_len))
                  (λ _. (malformed, refl))
                  (λ room.
                    scan_question-Answers fuel payload (position + 1 + label_len) (labels + 1)
                      (omega arith) (ground arith)))))

-- The loop over the labels ends: with 21 rounds or more, `is_dns_query` answers for every payload.
pub is_dns_query-ends :
    (fuel : ℕ) (payload : List ℕ)
    → enough_rounds ≤ fuel
    → (answer : Bool) × (is_dns_query fuel payload ≡ some answer)
unfolding is_dns_query
is_dns_query-ends fuel payload h =
    by_test Answers (ltb (length payload) 13 || not (is_yes (header_fits payload)))
      (λ _. (false, refl))
      (λ _.
        let (scan, e) = scan_question-Answers fuel payload 12 0 (omega arith) (omega arith) in
        (after_scan payload scan, rw e refl))
