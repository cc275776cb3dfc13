-- ===== src/Tests/Serving.antt =====
-- The DNS handlers of both plugins.
use joyride.Common.{
  ℕ, Bytes, codes, same, to_lower, true, false, Option, none, some, [], ◌∷◌, ◌==◌, ◌≡◌, refl,
  if◌then◌else◌,
}
use joyride.Common.Map.{get, put}
use joyride.Dns.{
  Request, Reply, reply_with, wrote, dropped, passed, write_msg, query_name, to4, trim_suffix_dot,
  type_a, type_aaaa, rcode_success, rcode_name_error, answers, parse_ipv4,
}
use joyride.Cluster.Records as ClusterRecords
use joyride.Cluster.Serve.{
  DockerCluster, action_nxdomain, action_drop, serve_dns, serve_found, answer_with,
}
use joyride.Cluster.Serve.Answers.{
  address_of, one_record, Returned, answers-serve_dns, Returned-serve_dns, serve_dns_unanswered,
}
use joyride.Traefik.Records as TraefikRecords
use joyride.Traefik.Serve as Traefik
use joyride.Traefik.Serve.{TraefikExternals, a_miss, uncounted}
use joyride.Traefik.Serve.Answers.{traefik_answers}

-- A parser of addresses that knows one.
abbrev parse_ip : Bytes → Option Bytes
parse_ip s = if same s (codes "10.0.0.1") then some (10 ∷ 0 ∷ 0 ∷ 1 ∷ []) else none

abbrev writer : Reply → Option Bytes
writer m = none

abbrev dc : DockerCluster
dc = record {
  records = ClusterRecords.add ClusterRecords.new_records (codes "app.local") (codes "10.0.0.1");
  ttl = 60;
  through = λ name. false;
  unknown_action = action_nxdomain;
}

abbrev question : ℕ → Request
question t = record { name = codes "app.local."; qname = codes "App.Local."; qtype = t }

abbrev type_mx : ℕ
type_mx = 15

answer_a :
    serve_dns writer parse_ip dc (question type_a)
    ≡ wrote
        (record {
          rcode = rcode_success;
          authoritative = true;
          answer =
              record { name = codes "App.Local."; ttl = 60; address = 10 ∷ 0 ∷ 0 ∷ 1 ∷ [] } ∷ [];
        })
        rcode_success
        none
unfolding serve_dns serve_found answer_with write_msg parse_ipv4 to4 trim_suffix_dot same to_lower
    get put ClusterRecords.lookup ClusterRecords.add ClusterRecords.new_records
answer_a = refl

answers-serve_dns_example : answers (serve_dns writer parse_ip dc (question type_a)) ≡ (
    if type_a == type_a
    then one_record
        (question type_a)
        60
        (address_of parse_ip (ClusterRecords.lookup dc.records (query_name (question type_a))))
    else [])
answers-serve_dns_example = answers-serve_dns writer parse_ip dc (question type_a)

Returned-serve_dns_example : Returned writer (serve_dns writer parse_ip dc (question type_aaaa))
Returned-serve_dns_example = Returned-serve_dns writer parse_ip dc (question type_aaaa)

-- The name is on record, and a question for its mail servers is told that there is no such name.
serve_dns_unanswered_example : serve_dns writer parse_ip dc (question type_mx) ≡ (
    if dc.through (codes "app.local.") then passed else elim dc.unknown_action [
      | action_drop ↦ dropped rcode_success
      | action_nxdomain ↦ write_msg writer (reply_with rcode_name_error) rcode_name_error
    ])
serve_dns_unanswered_example = serve_dns_unanswered writer parse_ip dc (question type_mx) refl

abbrev te : TraefikExternals
te = record {
  records = TraefikRecords.add TraefikRecords.new_records (codes "app.local") (codes "::1");
  ttl = 60;
  through = λ name. true;
}

traefik_answers_example : answers (Traefik.serve_dns writer parse_ip te (question type_a)).0 ≡ (
    if type_a == type_a
    then one_record
        (question type_a)
        60
        (address_of parse_ip (TraefikRecords.lookup te.records (query_name (question type_a))))
    else [])
traefik_answers_example = traefik_answers writer parse_ip te (question type_a)
