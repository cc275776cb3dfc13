-- ===== src/Cluster/Watcher/Cycle/Connections.antt =====
-- The connections to Docker that a session has opened, closed and in use.
use joyride.Common.{
  ℕ, zero, suc, Bytes, Bool, true, false, not, Option, none, some, List, [], ◌∷◌, ◌≡◌, refl, ◌&&◌,
}
use joyride.Cluster.Watcher.Events.{
  Selected, cancelled, errored, received, Outcome, finished, eof, failed, on_error, consume_events,
}
use joyride.Cluster.Watcher.Cycle.{Session, Round, on_event}

-- The numbers below `n`, the last one first.
abbrev pub below : ℕ → List ℕ
below zero = []
below (suc n) = n ∷ below n

-- What has been closed: all that was opened, but for the connection in use, which is the last.
abbrev pub TidyAt : Option ℕ → ℕ → List ℕ → Type 0
TidyAt none opened closed = closed ≡ below opened
TidyAt (some c) opened closed = (opened ≡ suc c) × (closed ≡ below c)

abbrev pub IsTidy : {World : Type 0} → Session World → Type 0
IsTidy s = TidyAt s.client s.opened s.closed

-- The first selection that is no event is that the context is done.
abbrev pub cancels : List Selected → Bool
cancels [] = false
cancels (cancelled ∷ rest) = true
cancels (errored ok err ∷ rest) = false
cancels (received false e ∷ rest) = false
cancels (received true e ∷ rest) = cancels rest

abbrev pub head_done : List Round → Bool
head_done [] = true
head_done (r ∷ rs) = r.done

-- A context that is done stays done: a round whose events it ends is followed by one that finds it
-- done.
abbrev pub IsOrderly : List Round → Type 0
IsOrderly [] = Unit
IsOrderly (r ∷ rs) = ((cancels r.selected && not (head_done rs)) ≡ false) × IsOrderly rs

-- The same connections, and started as before.
pub record SameClient {World : Type 0} (s t : Session World) : Type 0 where
  pub client : t.client ≡ s.client
  pub opened : t.opened ≡ s.opened
  pub closed : t.closed ≡ s.closed
  pub running : t.running ≡ s.running

pub SameClient-refl : {World : Type 0} (s : Session World) → SameClient s s
SameClient-refl s = record { client = refl; opened = refl; closed = refl; running = refl }

abbrev pub is_finished : Option Outcome → Bool
is_finished none = false
is_finished (some finished) = true
is_finished (some eof) = false
is_finished (some (failed e)) = false

module _ {World : Type 0} (is_domain_name : Bytes → Bool) where
  pub consume_events-SameClient :
      (s : Session World) (sel : List Selected)
      → SameClient s (consume_events (on_event is_domain_name) s sel).0
        × (is_finished (consume_events (on_event is_domain_name) s sel).1 ≡ cancels sel)
  unfolding consume_events on_event on_error
  consume_events-SameClient s [] = (SameClient-refl s, refl)
  consume_events-SameClient s (cancelled ∷ rest) = (SameClient-refl s, refl)
  consume_events-SameClient s (errored true none ∷ rest) = (SameClient-refl s, refl)
  consume_events-SameClient s (errored true (some e) ∷ rest) = (SameClient-refl s, refl)
  consume_events-SameClient s (errored false err ∷ rest) = (SameClient-refl s, refl)
  consume_events-SameClient s (received false e ∷ rest) = (SameClient-refl s, refl)
  consume_events-SameClient s (received true e ∷ rest) =
      let (same, ends) = consume_events-SameClient (on_event is_domain_name s e) rest in
      (
        record {
          client = same.client;
          opened = same.opened;
          closed = same.closed;
          running = same.running;
        },
        ends,
      )
