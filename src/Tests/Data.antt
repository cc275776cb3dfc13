-- ===== src/Tests/Data.antt =====
-- The inputs that the tests share.
use joyride.Common.{ℕ, pos, Bytes, codes, same, String, [], refl, if◌then◌else◌}
use joyride.Cluster.Message.{RecordMessage, record_action_add, record_action_remove}
use joyride.Cluster.Records.Issued.{Registry, IsIssued}

abbrev pub announcement : String → String → ℕ → String → RecordMessage
announcement h ip t n = record {
  hostname = codes h;
  ip = codes ip;
  action = record_action_add;
  timestamp = pos t;
  node_id = codes n;
}

abbrev pub withdrawal : String → ℕ → String → RecordMessage
withdrawal h t n = record {
  hostname = codes h;
  ip = [];
  action = record_action_remove;
  timestamp = pos t;
  node_id = codes n;
}

abbrev pub app_a : RecordMessage
app_a = announcement "App.local" "10.0.0.1" 5 "a"

abbrev pub app_b : RecordMessage
app_b = announcement "app.local" "10.0.0.2" 7 "b"

abbrev pub app_gone : RecordMessage
app_gone = withdrawal "app.LOCAL" 9 "b"

abbrev pub app : Bytes
app = codes "app.local"

-- Node a announces its own address, and so does node b.
abbrev pub by_node : Registry
by_node h s = if same s.node_id (codes "a") then codes "10.0.0.1" else codes "10.0.0.2"

pub app_a-IsIssued : IsIssued by_node app_a
unfolding same
app_a-IsIssued = record { adds = refl; address = refl }

pub app_b-IsIssued : IsIssued by_node app_b
unfolding same
app_b-IsIssued = record { adds = refl; address = refl }
