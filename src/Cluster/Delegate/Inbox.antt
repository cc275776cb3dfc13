-- ===== src/Cluster/Delegate/Inbox.antt =====
-- Messages that arrive: what the channel takes, and what draining it applies.
use mathlib.Core.List.{append-nil, append_assoc}
use joyride.Common.{
  ℕ, zero, suc, ◌+◌, ◌≤◌, Bytes, none, some, List, [], ◌∷◌, ◌++◌, length, length-append, take,
  length-take, take_all, ◌==◌, if◌then◌else◌, ◌≡◌, refl, arith, ap, ◌∙◌, sym, Bool-cases,
  Option-cases, inl, inr,
}
use joyride.Cluster.Message.{RecordMessage}
use joyride.Cluster.Records.{apply_message}
use joyride.Cluster.Records.Converge.{apply_all}
use joyride.Cluster.Delegate.{
  Wire, Delegate, running, msg_chan_buffer_size, send, notify_msg, process_message,
}

-- The messages that packets hold: an empty packet and one that does not decode hold none.
unfoldable pub decoded : Wire → List Bytes → List RecordMessage
decoded wire [] = []
decoded wire (buf ∷ bufs) =
    let rest = decoded wire bufs in
    if length buf == 0
    then rest
    else elim (wire.decode_record_message buf) [ none ↦ rest | some m ↦ m ∷ rest ]

module _ {Queue : Type 0} where
  pub notify_all : Wire → Delegate Queue → List Bytes → Delegate Queue
  notify_all wire d [] = d
  notify_all wire d (buf ∷ bufs) = notify_all wire (notify_msg wire d buf) bufs

  -- Rounds of the goroutine.
  pub process_rounds : ℕ → Delegate Queue → Delegate Queue
  process_rounds zero d = d
  process_rounds (suc n) d = process_rounds n (process_message d)

  send_room :
      (d : Delegate Queue) (m : RecordMessage)
      → suc (length d.msg_chan) ≤ msg_chan_buffer_size
      → send d m ≡ record d { msg_chan = d.msg_chan ++ (m ∷ []) }
  unfolding send
  send_room d m h = ground arith

  send_full :
      (d : Delegate Queue) (m : RecordMessage)
      → length d.msg_chan ≡ msg_chan_buffer_size
      → send d m ≡ d
  unfolding send
  send_full d m h = ground arith

  -- One message more, in front of packets of which as many messages are taken as there is room for.
  notify_all-send :
      (wire : Wire) (n : ℕ) (d : Delegate Queue) (m : RecordMessage) (ms : List RecordMessage)
      (bufs : List Bytes)
      → n + length d.msg_chan ≡ msg_chan_buffer_size
      → ((k : ℕ) (x : Delegate Queue)
          → k + length x.msg_chan ≡ msg_chan_buffer_size
          → notify_all wire x bufs ≡ record x { msg_chan = x.msg_chan ++ take k ms })
      → notify_all wire (send d m) bufs ≡ record d { msg_chan = d.msg_chan ++ take n (m ∷ ms) }
  notify_all-send wire zero d m ms bufs h k =
      ap (λ x. notify_all wire x bufs) (send_full d m (omega arith)) ∙ k zero d h
  notify_all-send wire (suc n) d m ms bufs h k =
      ap (λ x. notify_all wire x bufs) (send_room d m (omega arith))
      ∙ k n (record d { msg_chan = d.msg_chan ++ (m ∷ []) })
          (omega (arith, length-append d.msg_chan (m ∷ [])))
      ∙ ap (λ c. record d { msg_chan = c }) (append_assoc d.msg_chan (m ∷ []) (take n ms))

  -- With room for `n` messages more, the first `n` are taken.
  notify_all-take :
      (wire : Wire) (n : ℕ) (d : Delegate Queue) (bufs : List Bytes)
      → n + length d.msg_chan ≡ msg_chan_buffer_size
      → notify_all wire d bufs ≡ record d { msg_chan = d.msg_chan ++ take n (decoded wire bufs) }
  unfolding notify_all decoded notify_msg
  notify_all-take wire zero d [] h = rw append-nil
  notify_all-take wire (suc n) d [] h = rw append-nil
  notify_all-take wire n d (buf ∷ bufs) h = elim (Bool-cases (length buf == 0)) [
    | inl e ↦ rw e (notify_all-take wire n d bufs h)
    | inr e ↦ elim (Option-cases (wire.decode_record_message buf)) [
      | inl f ↦ rw (e, f) (notify_all-take wire n d bufs h)
      | inr (m, f) ↦
          rw (e, f)
            (notify_all-send wire n d m (decoded wire bufs) bufs h
              (λ k x. notify_all-take wire k x bufs))
    ]
  ]

  process_message_cons :
      (d : Delegate Queue) (m : RecordMessage) (ms : List RecordMessage)
      → d.loop ≡ running
      → d.msg_chan ≡ m ∷ ms
      → process_message d ≡ record d { msg_chan = ms; records = (apply_message d.records m).0 }
  unfolding process_message
  process_message_cons d m ms l e = ground arith

  process_message_empty : (d : Delegate Queue) → d.msg_chan ≡ [] → process_message d ≡ d
  unfolding process_message
  process_message_empty d e = ground arith

  process_rounds_all :
      (n : ℕ) (d : Delegate Queue) (ms : List RecordMessage)
      → d.loop ≡ running
      → d.msg_chan ≡ ms
      → length ms ≤ n
      → process_rounds n d ≡ record d { msg_chan = []; records = apply_all d.records ms }
  unfolding process_rounds apply_all
  process_rounds_all zero d [] l e h = rw e
  process_rounds_all zero d (m ∷ ms) l e h = absurd (omega arith)
  process_rounds_all (suc n) d [] l e h =
      ap (process_rounds n) (process_message_empty d e)
      ∙ process_rounds_all n d [] l e (omega arith)
  process_rounds_all (suc n) d (m ∷ ms) l e h =
      ap (process_rounds n) (process_message_cons d m ms l e)
      ∙ process_rounds_all n (record d { msg_chan = ms; records = (apply_message d.records m).0 })
          ms l refl (omega arith)

  notify_all-waiting :
      (wire : Wire) (d : Delegate Queue) (bufs : List Bytes)
      → d.msg_chan ≡ []
      → notify_all wire d bufs ≡ record d { msg_chan = take 256 (decoded wire bufs) }
  notify_all-waiting wire d bufs e =
      notify_all-take wire 256 d bufs (rw e refl)
      ∙ ap (λ c. record d { msg_chan = c ++ take 256 (decoded wire bufs) }) e

  -- A running delegate with an empty channel that is sent packets before its goroutine takes one keeps
  -- the first 256 of their messages, in the order of arrival, and drops the others; after 256 rounds it
  -- has applied just these, and has changed nothing else.
  pub process_rounds-overflow :
      (wire : Wire) (d : Delegate Queue) (bufs : List Bytes)
      → d.loop ≡ running
      → d.msg_chan ≡ []
      → ((notify_all wire d bufs).msg_chan ≡ take 256 (decoded wire bufs))
        × (process_rounds 256 (notify_all wire d bufs)
            ≡ record d { records = apply_all d.records (take 256 (decoded wire bufs)) })
  process_rounds-overflow wire d bufs l e =
      let ms = take 256 (decoded wire bufs) in
      let waiting : Delegate Queue = record d { msg_chan = ms } in
      let sent : notify_all wire d bufs ≡ waiting = notify_all-waiting wire d bufs e in
      (
        ap (λ x. x.msg_chan) sent,
        ap (process_rounds 256) sent
            ∙ process_rounds_all 256 waiting ms l refl
                (omega (arith, length-take 256 (decoded wire bufs)))
            ∙ ap (λ c. record d { msg_chan = c; records = apply_all d.records ms }) (sym e),
      )

  -- A running delegate with an empty channel that is sent packets with at most 256 messages in all
  -- has, after as many rounds of its loop, applied every message in the order of arrival, and has
  -- changed nothing else.
  pub process_rounds-notify_all :
      (wire : Wire) (d : Delegate Queue) (bufs : List Bytes)
      → d.loop ≡ running
      → d.msg_chan ≡ []
      → length (decoded wire bufs) ≤ msg_chan_buffer_size
      → process_rounds (length (decoded wire bufs)) (notify_all wire d bufs)
        ≡ record d { records = apply_all d.records (decoded wire bufs) }
  process_rounds-notify_all wire d bufs l e h =
      let ms = decoded wire bufs in
      let waiting : Delegate Queue = record d { msg_chan = ms } in
      ap (process_rounds (length ms))
        (notify_all-waiting wire d bufs e ∙ ap (λ c. record d { msg_chan = c }) (take_all 256 ms h))
      ∙ process_rounds_all (length ms) waiting ms l refl (omega arith)
      ∙ ap (λ c. record d { msg_chan = c; records = apply_all d.records ms }) (sym e)
