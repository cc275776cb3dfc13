-- ===== src/Traefik/Serve/Answers.antt =====
-- What a client of traefik-externals is told, and what is counted.
use joyride.Common.{
  ℕ, Bytes, true, false, ◌&&◌, Option, none, some, [], ◌==◌, is_some, ◌≡◌, refl, arith,
  if◌then◌else◌, Option-cases, inl, inr,
}
use joyride.Dns.{
  Request, Reply, dropped, passed, write_msg, query_name, parse_ipv4, type_a, type_aaaa,
  rcode_success, answers,
}
use joyride.Cluster.Serve.Answers.{address_of, one_record}
use joyride.Traefik.Records.{lookup}
use joyride.Traefik.Serve.{
  TraefikExternals, Counted, a_success, aaaa_success, a_miss, uncounted, count_written, miss,
  answer_with, serve_found, serve_dns,
}

module _ (writer : Reply → Option Bytes) (parse_ip : Bytes → Option Bytes) where
  answers-count_written :
      (label : Counted) (m : Reply) (rcode : ℕ)
      → answers (count_written label (write_msg writer m rcode)).0 ≡ m.answer
  unfolding write_msg
  answers-count_written label m rcode = elim (Option-cases (writer m)) [
    | inl e ↦ rw (e, write_msg)
    | inr (err, e) ↦ rw (e, write_msg)
  ]

  answers-answer_with :
      (te : TraefikExternals) (q : Request) (o : Option Bytes)
      → answers (answer_with writer parse_ip te q o).0 ≡ one_record q te.ttl o
  unfolding answer_with
  answers-answer_with te q none = refl
  answers-answer_with te q (some a) = answers-count_written a_success _ rcode_success

  answers-serve_found :
      (te : TraefikExternals) (q : Request) (found : Option Bytes)
      → answers (serve_found writer parse_ip te q found).0
        ≡ (if q.qtype == type_a then one_record q te.ttl (address_of parse_ip found) else [])
  unfolding serve_found miss
  answers-serve_found te q none = ground arith
  answers-serve_found te q (some ip) = ground (
    arith,
    answers-answer_with te q (parse_ipv4 parse_ip ip),
    answers-count_written aaaa_success
        (record { rcode = rcode_success; authoritative = true; answer = [] }) rcode_success,
  )

  -- The answer section holds an A record exactly if the question is for type A, the name is on
  -- record, in lower case and without its last dot, and the address on record is an IPv4 address:
  -- then it is that one record, with the name as asked and the configured TTL. Else it is empty.
  pub traefik_answers :
      (te : TraefikExternals) (q : Request)
      → answers (serve_dns writer parse_ip te q).0 ≡ (
          if q.qtype == type_a
          then one_record q te.ttl (address_of parse_ip (lookup te.records (query_name q)))
          else [])
  unfolding serve_dns
  traefik_answers te q = answers-serve_found te q (lookup te.records (query_name q))

  -- A question that is neither for A nor for AAAA, or is for AAAA of an unknown name, goes to the
  -- next plugin, uncounted. A question for A of an unknown name is a miss, and goes to the next
  -- plugin where the zones say so and is dropped where not. A question for A of a name whose address
  -- on record is no IPv4 address is a miss too, but is dropped, whatever the zones say.
  serve_dns_miss :
      (te : TraefikExternals) (q : Request)
      → (q.qtype == type_a ≡ false
          → (q.qtype == type_aaaa && is_some (lookup te.records (query_name q))) ≡ false
          → serve_dns writer parse_ip te q ≡ (passed, uncounted))
        × (q.qtype == type_a ≡ true
            → lookup te.records (query_name q) ≡ none
            → serve_dns writer parse_ip te q
              ≡ (if te.through q.name then passed else dropped rcode_success, a_miss))
        × (q.qtype == type_a ≡ true
            → is_some (lookup te.records (query_name q)) ≡ true
            → address_of parse_ip (lookup te.records (query_name q)) ≡ none
            → serve_dns writer parse_ip te q ≡ (dropped rcode_success, a_miss))
  unfolding serve_dns serve_found miss answer_with
  serve_dns_miss te q = (λ a b. ground arith, λ a e. ground arith, λ a s e. ground arith)
