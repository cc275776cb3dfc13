-- ===== src/Cluster/Watcher/Cycle.antt =====
-- plugins/docker-cluster/docker_watcher.go, the life of the watcher: Start, Stop, watchLoop with the
-- connection to Docker. Connections are numbered in the order in which they are opened.
pub mod Connections
pub mod Tidy
pub mod Sleeps
pub mod Follow
pub mod Streams
pub mod Tracking
use joyride.Common.{
  ℕ, zero, suc, ltb, Bytes, Bool, true, false, not, Option, none, some, List, [], ◌∷◌, is_some,
  if◌then◌else◌,
}
use joyride.Common.Map.{Map}
use joyride.Cluster.Watcher.{Watcher, Summary, InspectResponse, handle_event, sync_containers}
use joyride.Cluster.Watcher.Backoff.{second, max_backoff, next_backoff}
use joyride.Cluster.Watcher.Events.{
  Message, Selected, Outcome, finished, eof, failed, consume_events,
}

-- `cancelled` is the context of `Start`, `client` the number of the connection in `dw.client`;
-- `closed` has the connections that were closed, the last one first. `inspect` is what Docker
-- answers about a container at the n-th event, `events` how many there were.
pub record Session (World : Type 0) : Type 0 where
  pub watcher : Watcher World
  pub running : Bool
  pub cancelled : Bool
  pub client : Option ℕ
  pub opened : ℕ
  pub closed : List ℕ
  pub inspect : ℕ → Bytes → Option InspectResponse
  pub events : ℕ

-- How `connect` goes: the client cannot be made, the daemon does not answer the ping, or it does.
pub data Attempt : Type 0 where
  no_client no_ping pinged : Attempt

-- What one round of the loop meets: whether the context is done at its head, how `connect` goes,
-- what `ContainerList` answers (none for an error), what `select` picks in `consumeEvents`, and how
-- far in the sleep of the round, if it has one, the context is done (none if it is not by its end).
pub record Round : Type 0 where
  pub done : Bool
  pub attempt : Attempt
  pub listed : Option (List Summary)
  pub selected : List Selected
  pub cut : Option ℕ

-- After a round: another one with that backoff, after a sleep or with none, or the loop is still
-- among the events.
pub data After : Type 0 where
  again : Option ℕ → ℕ → After
  waiting : After

-- How long each sleep lasted, and whether the loop has returned.
pub record Trace : Type 0 where
  pub sleeps : List ℕ
  pub returned : Bool

-- A sleep of that duration: how long it lasts, and whether it ended because the context was done.
unfoldable pub sleep : ℕ → Option ℕ → ℕ × Bool
sleep d none = (d, false)
sleep d (some t) = if ltb t d then (t, true) else (d, false)

module _ {World : Type 0} where
  unfoldable pub new_session : Watcher World → (ℕ → Bytes → Option InspectResponse) → Session World
  new_session w inspect = record {
    watcher = w;
    running = false;
    cancelled = false;
    client = none;
    opened = 0;
    closed = [];
    inspect = inspect;
    events = 0;
  }

  -- The true result is the start of `watchLoop` in a goroutine.
  unfoldable pub start : Session World → Session World × Bool
  start s = if s.running then (s, false) else (record s { running = true; cancelled = false }, true)

  unfoldable pub connect : Session World → Attempt → Session World × Bool
  connect s no_client = (s, false)
  connect s no_ping = (record s { opened = suc s.opened; closed = s.opened ∷ s.closed }, false)
  connect s pinged = (record s { opened = suc s.opened; client = some s.opened }, true)

  unfoldable pub close_client : Session World → Session World
  close_client s = elim s.client [
    | none ↦ s
    | some c ↦ record s { client = none; closed = c ∷ s.closed }
  ]

  -- `Stop`, once the goroutine is gone.
  unfoldable pub stop : Session World → Session World
  unfolding close_client
  stop s =
      if not s.running then s else close_client (record s { running = false; cancelled = true })

  -- The rest of the loop, behind a sleep. The next round begins with a look at the context.
  unfoldable pub after_sleep :
      (Session World → ℕ → Session World × Trace)
      → Session World
      → ℕ
      → ℕ × Bool
      → Session World × Trace
  after_sleep rest s next (d, true) = (s, record { sleeps = d ∷ []; returned = true })
  after_sleep rest s next (d, false) =
      let (s', t) = rest s next in (s', record t { sleeps = d ∷ t.sleeps })

  -- The rest of the loop, behind a round.
  unfoldable pub continue_by :
      (Session World → ℕ → Session World × Trace)
      → Option ℕ
      → Session World × After
      → Session World × Trace
  unfolding after_sleep
  continue_by rest cut (s, waiting) = (s, record { sleeps = []; returned = false })
  continue_by rest cut (s, again none next) = rest s next
  continue_by rest cut (s, again (some d) next) = after_sleep rest s next (sleep d cut)

  module _ (is_domain_name : Bytes → Bool) where
    -- `handleEvent` as the argument of `consumeEvents`.
    unfoldable pub on_event : Session World → Message → Session World
    on_event s e = record s {
      watcher =
          handle_event is_domain_name (is_some s.client) (s.inspect s.events) s.watcher e.action
            e.actor_id;
      events = suc s.events;
    }

    unfoldable pub watch_events : Session World → List Selected → Session World × Option Outcome
    watch_events s selected = elim s.client [
      | none ↦ (s, some finished)
      | some c ↦ consume_events on_event s selected
    ]

    -- What follows `watchEvents`, by what it returned.
    unfoldable pub after_events : Session World × Option Outcome → Session World × After
    after_events (s, none) = (s, waiting)
    after_events (s, some finished) = (s, again none second)
    after_events (s, some eof) =
        (close_client s, again (some second) (next_backoff second max_backoff))
    after_events (s, some (failed e)) =
        (close_client s, again (some second) (next_backoff second max_backoff))

    -- What follows `syncContainers`; the flag is that it returned no error.
    unfoldable pub after_sync :
        Session World → Watcher World × Bool → List Selected → Session World × After
    unfolding watch_events after_events
    after_sync s (w, false) selected = (
      close_client (record s { watcher = w }),
      again (some second) (next_backoff second max_backoff),
    )
    after_sync s (w, true) selected =
        after_events (watch_events (record s { watcher = w }) selected)

    unfoldable pub after_connect : Session World × Bool → ℕ → Round → Session World × After
    unfolding after_sync
    after_connect (s, false) backoff r =
        (s, again (some backoff) (next_backoff backoff max_backoff))
    after_connect (s, true) backoff r =
        after_sync s (sync_containers is_domain_name (is_some s.client) r.listed s.watcher)
          r.selected

    -- One round, once the context was found not to be done.
    unfoldable pub round : Session World → ℕ → Round → Session World × After
    unfolding after_connect connect
    round s backoff r = after_connect (connect s r.attempt) backoff r

    -- The loop over what its rounds meet.
    unfoldable pub watch_loop : Session World → ℕ → List Round → Session World × Trace
    watch_loop s backoff [] = (s, record { sleeps = []; returned = false })
    watch_loop s backoff (r ∷ rs) =
        if r.done
        then (s, record { sleeps = []; returned = true })
        else continue_by (λ s' next. watch_loop s' next rs) r.cut (round s backoff r)
