-- ===== src/Cluster/Serve/Answers.antt =====
-- What a client of docker-cluster is told.
use joyride.Common.{
  ℕ, Bytes, Bool, true, false, not, ◌&&◌, ◌||◌, Option, none, some, List, [], ◌∷◌, ◌==◌, is_some,
  ◌≡◌, inl, inr, refl, arith, if◌then◌else◌, Option-cases, Bool-cases,
}
use joyride.Dns.{
  Request, ARecord, Reply, reply_with, Served, wrote, dropped, passed, write_msg, query_name,
  parse_ipv4, type_a, type_aaaa, rcode_success, rcode_name_error, rcode_server_failure, answers,
}
use joyride.Cluster.Records.{lookup}
use joyride.Cluster.Serve.{
  DockerCluster, UnknownAction, action_drop, action_nxdomain, handle_unknown, answer_with,
  serve_found, serve_dns,
}

-- The IPv4 address on record, if there is one that parses.
abbrev pub address_of : (Bytes → Option Bytes) → Option Bytes → Option Bytes
address_of parse_ip none = none
address_of parse_ip (some ip) = parse_ipv4 parse_ip ip

abbrev pub one_record : Request → ℕ → Option Bytes → List ARecord
one_record q ttl none = []
one_record q ttl (some a) = record { name = q.qname; ttl = ttl; address = a } ∷ []

-- The message in front of the writer, if there is one.
abbrev pub written : Served → Option Reply
written (wrote m rcode err) = some m
written (dropped rcode) = none
written passed = none

-- The code and the error that the handler returns for a message.
abbrev pub Returned : (Reply → Option Bytes) → Served → Type 0
Returned writer (wrote m rcode err) =
    (err ≡ writer m)
    × (is_some (writer m) ≡ true → rcode ≡ rcode_server_failure)
    × (is_some (writer m) ≡ false → rcode ≡ m.rcode)
Returned writer (dropped rcode) = rcode ≡ rcode_success
Returned writer passed = Unit

module _ (writer : Reply → Option Bytes) (parse_ip : Bytes → Option Bytes) where
  Returned-write_msg : (m : Reply) → Returned writer (write_msg writer m m.rcode)
  unfolding write_msg
  Returned-write_msg m = elim (Option-cases (writer m)) [
    | inl e ↦ rw (e, write_msg) (ground arith)
    | inr (err, e) ↦ rw (e, write_msg) (ground arith)
  ]

  Returned-if :
      (b : Bool) (x y : Served)
      → Returned writer x
      → Returned writer y
      → Returned writer (if b then x else y)
  Returned-if true x y p q = p
  Returned-if false x y p q = q

  answers-write_msg : (m : Reply) (rcode : ℕ) → answers (write_msg writer m rcode) ≡ m.answer
  unfolding write_msg
  answers-write_msg m rcode = ground arith

  answers-handle_unknown :
      (dc : DockerCluster) (q : Request) → answers (handle_unknown writer dc q) ≡ []
  unfolding handle_unknown
  answers-handle_unknown dc q =
      ground (arith, answers-write_msg (reply_with rcode_name_error) rcode_name_error)

  answers-answer_with :
      (dc : DockerCluster) (q : Request) (o : Option Bytes)
      → answers (answer_with writer parse_ip dc q o) ≡ one_record q dc.ttl o
  unfolding answer_with
  answers-answer_with dc q none = answers-handle_unknown dc q
  answers-answer_with dc q (some a) = answers-write_msg _ rcode_success

  answers-serve_found :
      (dc : DockerCluster) (q : Request) (found : Option Bytes)
      → answers (serve_found writer parse_ip dc q found)
        ≡ (if q.qtype == type_a then one_record q dc.ttl (address_of parse_ip found) else [])
  unfolding serve_found
  answers-serve_found dc q none = ground (arith, answers-handle_unknown dc q)
  answers-serve_found dc q (some ip) = ground (
    arith,
    answers-handle_unknown dc q,
    answers-answer_with dc q (parse_ipv4 parse_ip ip),
    answers-write_msg (reply_with rcode_success) rcode_success,
  )

  -- The answer section holds an A record exactly if the question is for type A, the name is on
  -- record, in lower case and without its last dot, and the address on record is an IPv4 address:
  -- then it is that one record, with the name as asked and the configured TTL. Else it is empty.
  pub answers-serve_dns :
      (dc : DockerCluster) (q : Request)
      → answers (serve_dns writer parse_ip dc q) ≡ (
          if q.qtype == type_a
          then one_record q dc.ttl (address_of parse_ip (lookup dc.records (query_name q)))
          else [])
  unfolding serve_dns
  answers-serve_dns dc q = answers-serve_found dc q (lookup dc.records (query_name q))

  Returned-handle_unknown :
      (dc : DockerCluster) (q : Request) → Returned writer (handle_unknown writer dc q)
  unfolding handle_unknown
  Returned-handle_unknown dc q = elim (Bool-cases (dc.through q.name)) [
    | inl e ↦ rw (e, handle_unknown) tt
    | inr e ↦ rw (e, handle_unknown) (by_action dc.unknown_action)
  ]
    where
      by_action :
          (action : UnknownAction)
          → Returned writer (elim action [
            | action_nxdomain ↦ write_msg writer (reply_with rcode_name_error) rcode_name_error
            | action_drop ↦ dropped rcode_success
          ])
      by_action action_nxdomain = Returned-write_msg (reply_with rcode_name_error)
      by_action action_drop = refl

  Returned-answer_with :
      (dc : DockerCluster) (q : Request) (o : Option Bytes)
      → Returned writer (answer_with writer parse_ip dc q o)
  unfolding answer_with
  Returned-answer_with dc q none = Returned-handle_unknown dc q
  Returned-answer_with dc q (some a) = Returned-write_msg _

  -- The tests on the type of the question, before what comes of the record.
  Returned-by_type :
      (dc : DockerCluster) (q : Request) (found : Bool) (x : Served)
      → Returned writer x
      → Returned writer (
          if q.qtype == type_aaaa && found
          then write_msg writer (reply_with rcode_success) rcode_success
          else if not (q.qtype == type_a)
          then handle_unknown writer dc q
          else x)
  Returned-by_type dc q found x r =
      Returned-if (q.qtype == type_aaaa && found)
        (write_msg writer (reply_with rcode_success) rcode_success)
        (if not (q.qtype == type_a) then handle_unknown writer dc q else x)
        (Returned-write_msg (reply_with rcode_success))
        (Returned-if (not (q.qtype == type_a)) (handle_unknown writer dc q) x
          (Returned-handle_unknown dc q) r)

  Returned-serve_found :
      (dc : DockerCluster) (q : Request) (found : Option Bytes)
      → Returned writer (serve_found writer parse_ip dc q found)
  unfolding serve_found
  Returned-serve_found dc q none =
      Returned-by_type dc q false (handle_unknown writer dc q) (Returned-handle_unknown dc q)
  Returned-serve_found dc q (some ip) =
      Returned-by_type dc q true (answer_with writer parse_ip dc q (parse_ipv4 parse_ip ip))
        (Returned-answer_with dc q (parse_ipv4 parse_ip ip))

  -- The code that the handler returns for a message is the one in the message, with no error, if
  -- the writer takes it; if the writer fails, it is SERVFAIL with the writer's error. A dropped
  -- question is a success.
  pub Returned-serve_dns :
      (dc : DockerCluster) (q : Request) → Returned writer (serve_dns writer parse_ip dc q)
  unfolding serve_dns
  Returned-serve_dns dc q = Returned-serve_found dc q (lookup dc.records (query_name q))

  -- The question is one that the handler answers itself, with or without a record.
  abbrev pub is_answered : DockerCluster → Request → Bool
  is_answered dc q =
      let found = lookup dc.records (query_name q) in
      (q.qtype == type_aaaa && is_some found)
      || (q.qtype == type_a && is_some (address_of parse_ip found))

  serve_found_unanswered :
      (dc : DockerCluster) (q : Request) (found : Option Bytes)
      → ((q.qtype == type_aaaa && is_some found)
          || (q.qtype == type_a && is_some (address_of parse_ip found)))
        ≡ false
      → serve_found writer parse_ip dc q found ≡ handle_unknown writer dc q
  unfolding serve_found answer_with
  serve_found_unanswered dc q none h = ground arith
  serve_found_unanswered dc q (some ip) h = ground arith

  -- A question that is not answered goes to the next plugin where the zones say so; else it is
  -- dropped in silence, or told NXDOMAIN, as configured. That is so also for a name on record that
  -- is asked for another type than A and AAAA, or whose address is no IPv4 address.
  pub serve_dns_unanswered :
      (dc : DockerCluster) (q : Request)
      → is_answered dc q ≡ false
      → serve_dns writer parse_ip dc q ≡ (
          if dc.through q.name then passed else elim dc.unknown_action [
            | action_drop ↦ dropped rcode_success
            | action_nxdomain ↦ write_msg writer (reply_with rcode_name_error) rcode_name_error
          ])
  unfolding serve_dns handle_unknown
  serve_dns_unanswered dc q h = serve_found_unanswered dc q (lookup dc.records (query_name q)) h
