-- ===== src/Traefik/Serve.antt =====
-- plugins/traefik-externals/traefik_externals.go: the DNS handler, with the query counter.
pub mod Answers
use joyride.Common.{
  ℕ, Bytes, Bool, true, false, not, ◌&&◌, Option, none, some, List, [], ◌∷◌, ◌==◌, is_some,
  if◌then◌else◌,
}
use joyride.Dns.{
  Request, Reply, Served, wrote, dropped, passed, write_msg, query_name, parse_ipv4, type_a,
  type_aaaa, rcode_success,
}
use joyride.Traefik.Records.{Records, lookup}

pub record TraefikExternals : Type 0 where
  pub records : Records
  pub ttl : ℕ
  pub through : Bytes → Bool

-- The labels under which `queriesTotal` is incremented, if it is.
pub data Counted : Type 0 where
  aaaa_success a_success a_miss uncounted : Counted

-- A message that is written counts as a success, and an error of the writer is not counted.
abbrev pub count_written : Counted → Served → Served × Counted
count_written label (wrote m rcode none) = (wrote m rcode none, label)
count_written label (wrote m rcode (some err)) = (wrote m rcode (some err), uncounted)
count_written label other = (other, uncounted)

-- `writer` is `w.WriteMsg`, `none` for no error; `parse_ip` is `net.ParseIP`, `none` for nil.
module _ (writer : Reply → Option Bytes) (parse_ip : Bytes → Option Bytes) where
  unfoldable pub miss : TraefikExternals → Request → Served × Counted
  miss te q = if te.through q.name then (passed, a_miss) else (dropped rcode_success, a_miss)

  unfoldable pub answer_with : TraefikExternals → Request → Option Bytes → Served × Counted
  answer_with te q none = (dropped rcode_success, a_miss)
  answer_with te q (some address) = count_written a_success (
      write_msg writer
        (record {
          rcode = rcode_success;
          authoritative = true;
          answer = record { name = q.qname; ttl = te.ttl; address = address } ∷ [];
        })
        rcode_success)

  unfoldable pub serve_found : TraefikExternals → Request → Option Bytes → Served × Counted
  serve_found te q found =
      if q.qtype == type_aaaa && is_some found
      then count_written aaaa_success (
          write_msg writer (record { rcode = rcode_success; authoritative = true; answer = [] })
            rcode_success)
      else if not (q.qtype == type_a)
      then (passed, uncounted)
      else elim found [ none ↦ miss te q | some ip ↦ answer_with te q (parse_ipv4 parse_ip ip) ]

  unfoldable pub serve_dns : TraefikExternals → Request → Served × Counted
  serve_dns te q = serve_found te q (lookup te.records (query_name q))
