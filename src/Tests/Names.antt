-- ===== src/Tests/Names.antt =====
-- Payloads with a domain name in them.
use zima_scope.Base.{
  ℕ, ◌≤◌, ◌≡◌, ◌≢◌, refl, arith, some, none, List, [], ◌∷◌, ◌++◌, length, get_elem?, replicate, map,
  All,
}
use zima_scope.Abi.{DomainSample, domain_max_len}
use zima_scope.Domains.Dns.{
  when, after_round, read_label, read_question_name, skip_answer_name, read_address, read_record,
  read_answers, read_response, parse_dns_response,
}
use zima_scope.Domains.Sni.{
  read_server_name, read_extensions, skip_vector8, skip_vector16, skip_hello, read_u24_be,
  extract_tls_sni,
}
use zima_scope.Domains.Host.{
  is_method, drop_blanks, stored_host, is_http_request, header_is_host, find_crlf, skip_blanks,
  collect_host, read_host, read_headers, extract_http_host,
}
use zima_scope.Domains.Names.{
  is_utf8, strip_root, split_dots, labels_fit, has_forbidden, normalize_domain, domain_from_buffer,
  lowercase,
}
use zima_scope.Domains.Decoder.{
  DomainObservation, http_host, direct, push, push_all, candidates, decode, key_of,
}
use zima_scope.Domains.Message.{
  WireAnswer, encode_labels, encode_record, encode_answers, dns_response, joined, answer_of,
}
use zima_scope.Domains.RoundTrip.{dns_response-parse_dns_response}
use zima_scope.Domains.Bounds.{memory_cursor-FillsCopies}
use zima_scope.Domains.SniBounds.{IsServerName, extract_tls_sni-name}
use zima_scope.Domains.Normal.{normalize_domain-normal}
use zima_scope.Domains.Dedupe.{decoded, purged, run, decode-once}
use zima_scope.Base.Assoc.{get, insert}
use zima_scope.Tracker.Clock.{anchor_if_needed, to_instant}
use zima_scope.Packet.Cursor.{memory_cursor, memory_u16, memory_u32, slice}
use zima_scope.Model.{v4}

extractors : Unit {0}
unfolding when after_round read_label read_question_name skip_answer_name read_address read_record
    read_answers read_response parse_dns_response read_server_name read_extensions skip_vector8
    skip_vector16 skip_hello read_u24_be extract_tls_sni is_method drop_blanks stored_host
    is_http_request header_is_host find_crlf skip_blanks collect_host read_host read_headers
    extract_http_host memory_u16 memory_u32 slice encode_labels encode_record encode_answers
    dns_response joined answer_of
extractors = tt

abbrev answer : WireAnswer
answer = record { ttl = 300; a0 = 93; a1 = 184; a2 = 216; a3 = 34 }

-- `example.com`
abbrev labels : List (List ℕ)
labels = (101 ∷ 120 ∷ []) ∷ (99 ∷ 111 ∷ 109 ∷ []) ∷ []

abbrev message : List ℕ
message =
    0x12 ∷ 0x34 ∷ 0x81 ∷ 0x80 ∷ 0 ∷ 1 ∷ 0 ∷ 1 ∷ 0 ∷ 0 ∷ 0 ∷ 0 ∷ 2 ∷ 101 ∷ 120 ∷ 3 ∷ 99 ∷ 111 ∷ 109
    ∷ 0 ∷ 0 ∷ 1 ∷ 0 ∷ 1 ∷ 0xC0 ∷ 0x0C ∷ 0 ∷ 1 ∷ 0 ∷ 1 ∷ 0 ∷ 0 ∷ 1 ∷ 44 ∷ 0 ∷ 4 ∷ 93 ∷ 184 ∷ 216 ∷ 34
    ∷ []

dns_response-parse_dns_response_example :
    parse_dns_response (memory_cursor message) 0 (length message)
    ≡ (
      101 ∷ 120 ∷ b'.' ∷ 99 ∷ 111 ∷ 109 ∷ [],
      record { ttl_secs = 300; address = replicate 12 0 ++ 93 ∷ 184 ∷ 216 ∷ 34 ∷ [] },
    )
      ∷ []
unfolding extractors
dns_response-parse_dns_response_example =
    dns_response-parse_dns_response message 0 (101 ∷ 120 ∷ []) ((99 ∷ 111 ∷ 109 ∷ []) ∷ [])
      (answer ∷ []) (omega arith) refl
      ((omega arith, omega arith), ((omega arith, omega arith), tt)) (omega arith) (omega arith)
      (omega arith) (omega arith) (omega arith, tt)

-- A ClientHello with the server name `a.b`.
abbrev hello : List ℕ
hello =
    0x16
    ∷ 3
    ∷ 1
    ∷ 0
    ∷ 59
    ∷ 1
    ∷ 0
    ∷ 0
    ∷ 55
    ∷ 3
    ∷ 3
    ∷ (replicate 32 0
        ++ 0 ∷ 0 ∷ 2 ∷ 0x13 ∷ 1 ∷ 1 ∷ 0 ∷ 0 ∷ 12 ∷ 0 ∷ 0 ∷ 0 ∷ 8 ∷ 0 ∷ 6 ∷ 0 ∷ 0 ∷ 3 ∷ b'a' ∷ b'.'
          ∷ b'b' ∷ [])

hello_name : extract_tls_sni (memory_cursor hello) 0 (length hello) ≡ some (b'a' ∷ b'.' ∷ b'b' ∷ [])
unfolding extractors
hello_name = refl

extract_tls_sni-name_example : IsServerName (memory_cursor hello) 64 (b'a' ∷ b'.' ∷ b'b' ∷ [])
extract_tls_sni-name_example =
    extract_tls_sni-name (memory_cursor hello) (memory_cursor-FillsCopies hello) 0 64
      (b'a' ∷ b'.' ∷ b'b' ∷ []) hello_name

-- `GET / HTTP/1.1`, `Host: A.b:80`.
abbrev request : List ℕ
request =
    b'G' ∷ b'E' ∷ b'T' ∷ b' ' ∷ b'/' ∷ b' ' ∷ b'H' ∷ b'T' ∷ b'T' ∷ b'P' ∷ b'/' ∷ b'1' ∷ b'.' ∷ b'1'
    ∷ 13 ∷ 10 ∷ b'H' ∷ b'o' ∷ b's' ∷ b't' ∷ b':' ∷ b' ' ∷ b'A' ∷ b'.' ∷ b'b' ∷ b':' ∷ b'8' ∷ b'0'
    ∷ 13 ∷ 10 ∷ 13 ∷ 10 ∷ []

request_host : extract_http_host (memory_cursor request) 0 32 ≡ some (b'A' ∷ b'.' ∷ b'b' ∷ [])
unfolding extractors
request_host = refl

names : Unit {0}
unfolding is_utf8 strip_root split_dots labels_fit has_forbidden normalize_domain domain_from_buffer
names = tt

upper_normal : normalize_domain (b'A' ∷ b'.' ∷ b'b' ∷ b'.' ∷ []) ≡ some (b'a' ∷ b'.' ∷ b'b' ∷ [])
unfolding names
upper_normal = refl

normalize_domain-normal_example :
    (normalize_domain (b'a' ∷ b'.' ∷ b'b' ∷ []) ≡ some (b'a' ∷ b'.' ∷ b'b' ∷ []))
    × (normalize_domain (map lowercase (b'A' ∷ b'.' ∷ b'b' ∷ b'.' ∷ []))
        ≡ some (b'a' ∷ b'.' ∷ b'b' ∷ []))
    × (1 ≤ 3)
    × (3 ≤ domain_max_len)
normalize_domain-normal_example =
    normalize_domain-normal (b'A' ∷ b'.' ∷ b'b' ∷ b'.' ∷ []) (b'a' ∷ b'.' ∷ b'b' ∷ []) upper_normal

abbrev sample : DomainSample
sample = record {
  observed_mono_ns = 1000;
  ifindex = 3;
  payload_len = 32;
  kind = 3;
  transport = 6;
  ip_family = 4;
  direction = 2;
  address = replicate 12 0 ++ 203 ∷ 0 ∷ 113 ∷ 10 ∷ [];
  payload = request;
}

abbrev seen : DomainObservation
seen = record {
  domain = b'a' ∷ b'.' ∷ b'b' ∷ [];
  address = v4 (203 ∷ 0 ∷ 113 ∷ 10 ∷ []);
  evidence = http_host;
  confidence = direct;
  client_context = 3;
  observed_at = 5000;
  expires_at = 300000005000;
}

first_observation : get_elem? ((decode [] sample none 5000).2) 0 ≡ some seen
unfolding extractors names decode push push_all candidates get insert anchor_if_needed to_instant
first_observation = refl

decode-once_example :
    All
      (λ later. key_of later ≢ key_of seen)
      (run
        ((decode [] sample none 5000).0)
        ((decode [] sample none 5000).1)
        (decoded sample 6000 ∷ purged 7000 ∷ decoded sample 8000 ∷ []))
decode-once_example =
    decode-once [] sample none 5000 0 seen
      (decoded sample 6000 ∷ purged 7000 ∷ decoded sample 8000 ∷ []) first_observation (omega arith)
      (omega arith, (omega arith, (omega arith, tt)))
