-- ===== src/Cluster/Serve.antt =====
-- plugins/docker-cluster/docker_cluster.go: the DNS handler.
pub mod Answers
use joyride.Common.{
  ℕ, Bytes, Bool, true, false, not, ◌&&◌, Option, none, some, List, [], ◌∷◌, ◌==◌, is_some,
  if◌then◌else◌,
}
use joyride.Dns.{
  Request, ARecord, Reply, reply_with, Served, dropped, passed, write_msg, query_name, parse_ipv4,
  type_a, type_aaaa, rcode_success, rcode_name_error,
}
use joyride.Cluster.Records.{Records, lookup}

pub data UnknownAction : Type 0 where
  action_drop action_nxdomain : UnknownAction

-- `through` is `Fall.Through`.
pub record DockerCluster : Type 0 where
  pub records : Records
  pub ttl : ℕ
  pub through : Bytes → Bool
  pub unknown_action : UnknownAction

-- `writer` is `w.WriteMsg`, `none` for no error.
module _ (writer : Reply → Option Bytes) where
  unfoldable pub handle_unknown : DockerCluster → Request → Served
  handle_unknown dc q = if dc.through q.name then passed else elim dc.unknown_action [
    | action_nxdomain ↦ write_msg writer (reply_with rcode_name_error) rcode_name_error
    | action_drop ↦ dropped rcode_success
  ]

  -- `parse_ip` is `net.ParseIP`, `none` for nil.
  module _ (parse_ip : Bytes → Option Bytes) where
    unfoldable pub answer_with : DockerCluster → Request → Option Bytes → Served
    answer_with dc q none = handle_unknown dc q
    answer_with dc q (some address) =
        write_msg writer
          (record {
            rcode = rcode_success;
            authoritative = true;
            answer = record { name = q.qname; ttl = dc.ttl; address = address } ∷ [];
          })
          rcode_success

    unfoldable pub serve_found : DockerCluster → Request → Option Bytes → Served
    serve_found dc q found =
        if q.qtype == type_aaaa && is_some found
        then write_msg writer (reply_with rcode_success) rcode_success
        else if not (q.qtype == type_a)
        then handle_unknown dc q
        else elim found [
          | none ↦ handle_unknown dc q
          | some ip ↦ answer_with dc q (parse_ipv4 parse_ip ip)
        ]

    unfoldable pub serve_dns : DockerCluster → Request → Served
    serve_dns dc q = serve_found dc q (lookup dc.records (query_name q))
