-- ===== src/Cluster/Watcher/Events.antt =====
-- plugins/docker-cluster/docker_watcher.go, `consumeEvents`: the loop over Docker's event stream.
use joyride.Common.{
  Bytes, Bool, true, false, Option, none, some, List, [], ◌∷◌, ◌++◌, map, ◌≡◌, refl,
}

pub record Message : Type 0 where
  pub action : Bytes
  pub actor_id : Bytes

-- What `select` picks: the context is done, something from the error channel (with `ok`, and the
-- error or nil), something from the message channel (with `ok`).
pub data Selected : Type 0 where
  cancelled : Selected
  errored : Bool → Option Bytes → Selected
  received : Bool → Message → Selected

-- What the function returns: nil, io.EOF, or the error from the stream.
pub data Outcome : Type 0 where
  finished eof : Outcome
  failed : Bytes → Outcome

unfoldable pub on_error : Bool → Option Bytes → Outcome
on_error false err = eof
on_error true none = eof
on_error true (some e) = failed e

module _ {State : Type 0} where
  -- `none`: the loop still waits.
  unfoldable pub consume_events :
      (State → Message → State) → State → List Selected → State × Option Outcome
  unfolding on_error
  consume_events handle s [] = (s, none)
  consume_events handle s (cancelled ∷ rest) = (s, some finished)
  consume_events handle s (errored ok err ∷ rest) = (s, some (on_error ok err))
  consume_events handle s (received false event ∷ rest) = (s, some eof)
  consume_events handle s (received true event ∷ rest) = consume_events handle (handle s event) rest

  pub handle_each : (State → Message → State) → State → List Message → State
  handle_each handle s [] = s
  handle_each handle s (e ∷ es) = handle_each handle (handle s e) es

  -- The events before the first other selection are handled, each once and in order, and none after
  -- it: a cancellation ends the loop without an error, a closed channel or a nil error with EOF, an
  -- error with that error.
  pub consume_events_lem :
      (handle : State → Message → State) (s : State) (events : List Message) (rest : List Selected)
      → let before = map (received true) events in
        let after = handle_each handle s events in
        (consume_events handle s (before ++ (cancelled ∷ rest)) ≡ (after, some finished))
        × ((ok : Bool)
            → consume_events handle s (before ++ (errored ok none ∷ rest)) ≡ (after, some eof))
        × ((err : Bytes)
            → consume_events handle s (before ++ (errored true (some err) ∷ rest))
              ≡ (after, some (failed err)))
        × ((e : Message)
            → consume_events handle s (before ++ (received false e ∷ rest)) ≡ (after, some eof))
        × (consume_events handle s before ≡ (after, none))
  unfolding consume_events handle_each
  consume_events_lem handle s [] rest =
      (refl, elim [ true ↦ refl | false ↦ refl ], λ err. refl, λ e. refl, refl)
  consume_events_lem handle s (e ∷ es) rest = consume_events_lem handle (handle s e) es rest
