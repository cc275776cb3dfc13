-- ===== src/Cluster/Manager/Replication.antt =====
-- A change that a node makes known is the same change on the node that hears of it.
use joyride.Common.{ℤ, Bytes, some, [], length, ◌≡◌, ◌≢◌, refl, sym, ap, ◌∙◌, arith}
use joyride.Cluster.Message.{RecordMessage}
use joyride.Cluster.Records.{apply_message}
use joyride.Cluster.Records.Cell.{cell, step_at, cell-apply_message}
use joyride.Cluster.Delegate.{
  Wire, BroadcastQueue, Delegate, running, send, notify_msg, process_message, broadcast_record,
}
use joyride.Cluster.Manager.{
  Manager, publish, notify_record_add, notify_record_remove, add_record_message,
  remove_record_message,
}

-- The codec takes the message to bytes and back.
pub record Sends (wire : Wire) (msg : RecordMessage) (buf : Bytes) : Type 0 where
  pub encodes : wire.encode_record_message msg ≡ some buf
  pub not_empty : length buf ≢ 0
  pub decodes : wire.decode_record_message buf ≡ some msg

-- The manager has queued the packet, and a peer that hears it agrees with it at the hostname.
pub record Heard {Queue : Type 0} (wire : Wire) (q : BroadcastQueue Queue) (after : Manager Queue)
    (d peer : Delegate Queue) (buf : Bytes) (h : Bytes) : Type 0 where
  pub local : Delegate Queue
  pub is_local : after.delegate ≡ some local
  pub queued : local.broadcasts ≡ q.queue_broadcast d.broadcasts buf
  pub agree : cell local.records h ≡ cell (process_message (notify_msg wire peer buf)).records h

module _ {Queue : Type 0} (wire : Wire) (q : BroadcastQueue Queue) where
  broadcast_record-Sends :
      (d : Delegate Queue) (msg : RecordMessage) (buf : Bytes)
      → Sends wire msg buf
      → broadcast_record wire q d msg ≡ record d { broadcasts = q.queue_broadcast d.broadcasts buf }
  unfolding broadcast_record
  broadcast_record-Sends d msg buf s = rw (s.encodes, broadcast_record)

  hear :
      (peer : Delegate Queue) (msg : RecordMessage) (buf : Bytes)
      → Sends wire msg buf
      → peer.loop ≡ running
      → peer.msg_chan ≡ []
      → (process_message (notify_msg wire peer buf)).records ≡ (apply_message peer.records msg).0
  unfolding process_message notify_msg send
  hear peer msg buf s l e = ground (arith, s.encodes, s.decodes, s.not_empty)

  publish-Heard :
      (cm : Manager Queue) (d peer : Delegate Queue) (msg : RecordMessage) (buf h : Bytes)
      → cm.delegate ≡ some d
      → Sends wire msg buf
      → peer.loop ≡ running
      → peer.msg_chan ≡ []
      → cell d.records h ≡ cell peer.records h
      → Heard wire q (publish wire q cm msg) d peer buf h
  unfolding publish
  publish-Heard cm d peer msg buf h e s l c same =
      let applied : Delegate Queue = record d { records = (apply_message d.records msg).0 } in
      record {
        local = record applied { broadcasts = q.queue_broadcast d.broadcasts buf };
        is_local = rw (e, publish) (ap some (broadcast_record-Sends applied msg buf s));
        queued = refl;
        agree =
            cell-apply_message d.records msg h
            ∙ ap (λ x. step_at h x msg) same
            ∙ sym (cell-apply_message peer.records msg h)
            ∙ ap (λ r. cell r h) (sym (hear peer msg buf s l c));
      }

  -- A node that notifies an addition or a removal applies it to its own store and queues one packet
  -- for it; a peer that runs with an empty channel and receives the packet has, after one round of
  -- its loop, the same address and stamp as the node at every hostname where the two agreed before,
  -- provided that the codec carries the message.
  pub notify_record-Heard :
      (cm : Manager Queue) (d peer : Delegate Queue) (hostname ip : Bytes) (t : ℤ)
      (added removed h : Bytes)
      → Sends wire (add_record_message cm hostname ip t) added
      → Sends wire (remove_record_message cm hostname t) removed
      → cm.delegate ≡ some d
      → peer.loop ≡ running
      → peer.msg_chan ≡ []
      → cell d.records h ≡ cell peer.records h
      → Heard wire q (notify_record_add wire q cm hostname ip t) d peer added h
        × Heard wire q (notify_record_remove wire q cm hostname t) d peer removed h
  unfolding notify_record_add notify_record_remove
  notify_record-Heard cm d peer hostname ip t added removed h sa sr e l c agreed = (
    publish-Heard cm d peer (add_record_message cm hostname ip t) added h e sa l c agreed,
    publish-Heard cm d peer (remove_record_message cm hostname t) removed h e sr l c agreed,
  )
