-- ===== src/Dns.antt =====
-- What the two plugins use of the DNS library and of CoreDNS: questions, replies, outcomes. The
-- writer, the next plugin and the zones of `fallthrough` are arguments of the handlers.
use joyride.Common.{
  ℕ, Bytes, to_lower, Option, none, some, List, [], ◌∷◌, Bool, false, ◌==◌, ◌&&◌, if◌then◌else◌,
}

abbrev pub type_a : ℕ
type_a = 1

abbrev pub type_aaaa : ℕ
type_aaaa = 28

abbrev pub rcode_success : ℕ
rcode_success = 0

abbrev pub rcode_server_failure : ℕ
rcode_server_failure = 2

abbrev pub rcode_name_error : ℕ
rcode_name_error = 3

-- `state.Name()`, `state.QName()` and `state.QType()`.
pub record Request : Type 0 where
  pub name : Bytes
  pub qname : Bytes
  pub qtype : ℕ

-- An A record; the address is its four bytes.
pub record ARecord : Type 0 where
  pub name : Bytes
  pub ttl : ℕ
  pub address : Bytes

pub record Reply : Type 0 where
  pub rcode : ℕ
  pub authoritative : Bool
  pub answer : List ARecord

-- `SetReply`, `SetRcode`
abbrev pub reply_with : ℕ → Reply
reply_with rcode = record { rcode = rcode; authoritative = false; answer = [] }

-- What a handler does: it gives a message to the writer and returns a code, with the writer's error
-- if there was one; or it writes nothing and returns a code; or it calls the next plugin.
pub data Served : Type 0 where
  wrote : Reply → ℕ → Option Bytes → Served
  dropped : ℕ → Served
  passed : Served

-- `if err := w.WriteMsg(m); err != nil`
unfoldable pub write_msg : (Reply → Option Bytes) → Reply → ℕ → Served
write_msg writer m rcode = elim (writer m) [
  | none ↦ wrote m rcode none
  | some err ↦ wrote m rcode_server_failure (some err)
]

-- `strings.TrimSuffix(s, ".")`
unfoldable pub trim_suffix_dot : Bytes → Bytes
trim_suffix_dot [] = []
trim_suffix_dot (c ∷ []) = if c == b'.' then [] else c ∷ []
trim_suffix_dot (c ∷ d ∷ s) = c ∷ trim_suffix_dot (d ∷ s)

abbrev pub query_name : Request → Bytes
query_name q = trim_suffix_dot (to_lower q.name)

-- `To4` of a `net.IP`: four bytes as they are, or the last four of a mapped IPv4 address.
unfoldable pub to4 : Bytes → Option Bytes
to4 (a ∷ b ∷ c ∷ d ∷ []) = some (a ∷ b ∷ c ∷ d ∷ [])
to4 (z0 ∷ z1 ∷ z2 ∷ z3 ∷ z4 ∷ z5 ∷ z6 ∷ z7 ∷ z8 ∷ z9 ∷ f0 ∷ f1 ∷ a ∷ b ∷ c ∷ d ∷ []) =
    if z0 == 0
      && z1 == 0
      && z2 == 0
      && z3 == 0
      && z4 == 0
      && z5 == 0
      && z6 == 0
      && z7 == 0
      && z8 == 0
      && z9 == 0
      && f0 == 255
      && f1 == 255
    then some (a ∷ b ∷ c ∷ d ∷ [])
    else none
to4 _ = none

-- `parsedIP := net.ParseIP(ip)`, and the four bytes unless it is nil or has no IPv4 form.
unfoldable pub parse_ipv4 : (Bytes → Option Bytes) → Bytes → Option Bytes
parse_ipv4 parse_ip ip = elim (parse_ip ip) [ none ↦ none | some parsed ↦ to4 parsed ]

-- The answer section that a handler gives to its writer.
abbrev pub answers : Served → List ARecord
answers (wrote m rcode err) = m.answer
answers (dropped rcode) = []
answers passed = []
