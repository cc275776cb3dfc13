-- ===== src/Cluster/Wiring/Queued.antt =====
-- What the callback does for the hostnames of a container: each announcement is applied to the shared
-- store and queued.
use joyride.Common.{ℤ, Bytes, some, List, [], ◌∷◌, map, ◌≡◌, refl, ap, ◌∙◌, arith, All}
use joyride.Cluster.Message.{RecordMessage, record_action_add}
use joyride.Cluster.Records.{Records, apply_message}
use joyride.Cluster.Records.Converge.{apply_all}
use joyride.Cluster.Delegate.{Wire, BroadcastQueue, Delegate, broadcast_record}
use joyride.Cluster.Delegate.Inbox.{decoded}
use joyride.Cluster.Manager.{Manager, publish, notify_record_add, add_record_message}
use joyride.Cluster.Manager.Replication.{Sends}
use joyride.Cluster.Watcher.{addition, call_each}
use joyride.Cluster.Wiring.{notified, cluster_callback}

-- Packets, each queued behind the ones before.
abbrev pub queue_all : {Queue : Type 0} → BroadcastQueue Queue → Queue → List Bytes → Queue
queue_all q queue [] = queue
queue_all q queue (buf ∷ bufs) = queue_all q (q.queue_broadcast queue buf) bufs

-- The manager with that delegate.
abbrev pub managing : {Queue : Type 0} → Manager Queue → Delegate Queue → Manager Queue
managing cm d = record cm { delegate = some d }

-- The announcements of a node for hostnames that it gets at one time.
abbrev pub announcements : Bytes → Bytes → ℤ → List Bytes → List RecordMessage
announcements node ip ts [] = []
announcements node ip ts (h ∷ hs) =
    record { hostname = h; ip = ip; action = record_action_add; timestamp = ts; node_id = node }
    ∷ announcements node ip ts hs

-- A codec takes each message to a packet and back.
abbrev pub AllSend : Wire → (RecordMessage → Bytes) → List RecordMessage → Type 0
AllSend wire enc msgs = All (λ m. Sends wire m (enc m)) msgs

pub decoded-AllSend :
    (wire : Wire) (enc : RecordMessage → Bytes) (msgs : List RecordMessage)
    → AllSend wire enc msgs
    → decoded wire (map enc msgs) ≡ msgs
unfolding decoded
decoded-AllSend wire enc [] s = refl
decoded-AllSend wire enc (m ∷ ms) (s, rest) =
    ground (arith, s.not_empty, s.decodes, decoded-AllSend wire enc ms rest)

module _ {Queue : Type 0} (wire : Wire) (q : BroadcastQueue Queue) where
  callback_once :
      (cm : Manager Queue) (d : Delegate Queue) (r : Records) (h ip : Bytes) (ts : ℤ) (buf : Bytes)
      → Sends wire (add_record_message cm h ip ts) buf
      → cluster_callback wire q (addition ip ts h) (r, managing cm d) ≡ (
        (apply_message r (add_record_message cm h ip ts)).0,
        managing cm (record d {
          records = (apply_message r (add_record_message cm h ip ts)).0;
          broadcasts = q.queue_broadcast d.broadcasts buf;
        }),
      )
  unfolding cluster_callback notified notify_record_add publish broadcast_record
  callback_once cm d r h ip ts buf s = ground (arith, s.encodes)

  after_all :
      (enc : RecordMessage → Bytes) (cm : Manager Queue) (d : Delegate Queue) (r : Records)
      (ip : Bytes) (ts : ℤ) (hs : List Bytes)
      → d.records ≡ r
      → AllSend wire enc (announcements cm.config.node_name ip ts hs)
      → call_each (cluster_callback wire q) (addition ip ts) hs (r, managing cm d) ≡ (
        apply_all r (announcements cm.config.node_name ip ts hs),
        managing cm (record d {
          records = apply_all r (announcements cm.config.node_name ip ts hs);
          broadcasts =
              queue_all q d.broadcasts (map enc (announcements cm.config.node_name ip ts hs));
        }),
      )
  unfolding call_each apply_all
  after_all enc cm d r ip ts [] e s = ap (λ x. (r, managing cm (record d { records = x }))) e
  after_all enc cm d r ip ts (h ∷ hs) e (s, rest) =
      let m = add_record_message cm h ip ts in
      let after : Records = (apply_message r m).0 in
      let d' : Delegate Queue = record d {
        records = after;
        broadcasts = q.queue_broadcast d.broadcasts (enc m);
      } in
      ap (call_each (cluster_callback wire q) (addition ip ts) hs)
        (callback_once cm d r h ip ts (enc m) s)
      ∙ after_all enc cm d' after ip ts hs refl rest

  -- All the hostnames, at least one, whatever the delegate's view of the store was.
  pub call_each-announced :
      (enc : RecordMessage → Bytes) (cm : Manager Queue) (d : Delegate Queue) (r : Records)
      (ip : Bytes) (ts : ℤ) (h : Bytes) (hs : List Bytes)
      → AllSend wire enc (announcements cm.config.node_name ip ts (h ∷ hs))
      → call_each (cluster_callback wire q) (addition ip ts) (h ∷ hs) (r, managing cm d) ≡ (
        apply_all r (announcements cm.config.node_name ip ts (h ∷ hs)),
        managing cm (record d {
          records = apply_all r (announcements cm.config.node_name ip ts (h ∷ hs));
          broadcasts =
              queue_all q d.broadcasts (map enc (announcements cm.config.node_name ip ts (h ∷ hs)));
        }),
      )
  unfolding call_each apply_all
  call_each-announced enc cm d r ip ts h hs (s, rest) =
      let m = add_record_message cm h ip ts in
      let after : Records = (apply_message r m).0 in
      let d' : Delegate Queue = record d {
        records = after;
        broadcasts = q.queue_broadcast d.broadcasts (enc m);
      } in
      ap (call_each (cluster_callback wire q) (addition ip ts) hs)
        (callback_once cm d r h ip ts (enc m) s)
      ∙ after_all enc cm d' after ip ts hs refl rest
