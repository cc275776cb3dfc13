-- ===== src/Cluster/Watcher/Cycle/Tidy.antt =====
-- Connections to Docker: each that is opened is closed, once.
use joyride.Common.{
  ℕ, suc, Bytes, Bool, true, false, Option, none, some, List, [], ◌∷◌, ◌≡◌, ◌⊎◌, inl, inr, refl,
  ◌∙◌, sym, subst, arith, Bool-cases, if◌then◌else◌,
}
use joyride.Cluster.Watcher.{Watcher, InspectResponse, sync_containers}
use joyride.Cluster.Watcher.Backoff.{second}
use joyride.Cluster.Watcher.Events.{Selected, Outcome, finished, eof, failed, consume_events}
use joyride.Cluster.Watcher.Cycle.{
  Session, Attempt, no_client, no_ping, pinged, Round, After, again, waiting, Trace, new_session,
  start, connect, close_client, stop, on_event, watch_events, after_events, after_sync,
  after_connect, round, sleep, after_sleep, continue_by, watch_loop,
}
use joyride.Cluster.Watcher.Cycle.Connections.{
  below, IsTidy, cancels, head_done, IsOrderly, SameClient, is_finished, consume_events-SameClient,
}

-- What a round leaves for the next.
abbrev Ready : Option ℕ → After → Bool → Type 0
Ready client waiting ends = Unit
Ready client (again sleep next) ends = (client ≡ none) ⊎ (ends ≡ true)

module _ {World : Type 0} (is_domain_name : Bytes → Bool) where
  -- Tidy, started as the session was, and ready for the next round.
  record RoundEnds (s : Session World) (sel : List Selected) (t : Session World × After)
      : Type 0 where
    tidy : IsTidy t.0
    running : t.0.running ≡ s.running
    ready : Ready t.0.client t.1 (cancels sel)

  close_client-tidy :
      (s : Session World)
      → IsTidy s
      → ((close_client s).client ≡ none)
        × ((close_client s).closed ≡ below (close_client s).opened)
        × ((close_client s).running ≡ s.running)
  unfolding close_client
  close_client-tidy s h = ground (arith, h)

  closing :
      (s t : Session World) (sel : List Selected) (sleep : Option ℕ) (next : ℕ)
      → IsTidy t
      → t.running ≡ s.running
      → RoundEnds s sel (close_client t, again sleep next)
  closing s t sel sleep next h run =
      let (none_left, closed, running) = close_client-tidy t h in
      record {
        tidy = ground (arith, none_left, closed);
        running = running ∙ run;
        ready = inl none_left;
      }

  after_events-RoundEnds :
      (s t : Session World) (sel : List Selected) (out : Option Outcome)
      → IsTidy t
      → t.running ≡ s.running
      → is_finished out ≡ cancels sel
      → RoundEnds s sel (after_events is_domain_name (t, out))
  unfolding after_events
  after_events-RoundEnds s t sel none h run e = record { tidy = h; running = run; ready = tt }
  after_events-RoundEnds s t sel (some finished) h run e = record {
    tidy = h;
    running = run;
    ready = inr (sym e);
  }
  after_events-RoundEnds s t sel (some eof) h run e = closing s t sel _ _ h run
  after_events-RoundEnds s t sel (some (failed err)) h run e = closing s t sel _ _ h run

  IsTidy-SameClient : (s t : Session World) → SameClient s t → IsTidy s → IsTidy t
  IsTidy-SameClient s t same h = rw (same.client, same.opened, same.closed) h

  watch_events-connected :
      (s : Session World) (c : ℕ) (sel : List Selected)
      → s.client ≡ some c
      → watch_events is_domain_name s sel ≡ consume_events (on_event is_domain_name) s sel
  unfolding watch_events
  watch_events-connected s c sel e = ground (arith, e)

  watch_events-RoundEnds :
      (s : Session World) (c : ℕ) (sel : List Selected)
      → s.client ≡ some c
      → IsTidy s
      → RoundEnds s sel (after_events is_domain_name (watch_events is_domain_name s sel))
  watch_events-RoundEnds s c sel e h =
      let out = consume_events (on_event is_domain_name) s sel in
      let (same, ends) = consume_events-SameClient is_domain_name s sel in
      subst (λ x. RoundEnds s sel (after_events is_domain_name x))
        (sym (watch_events-connected s c sel e))
        (after_events-RoundEnds s out.0 sel out.1 (IsTidy-SameClient s out.0 same h) same.running
          ends)

  after_sync-RoundEnds :
      (s : Session World) (c : ℕ) (w : Watcher World) (synced : Bool) (sel : List Selected)
      → s.client ≡ some c
      → IsTidy s
      → RoundEnds s sel (after_sync is_domain_name s (w, synced) sel)
  unfolding after_sync
  after_sync-RoundEnds s c w false sel e h = closing s (record s { watcher = w }) sel _ _ h refl
  after_sync-RoundEnds s c w true sel e h =
      let r = watch_events-RoundEnds (record s { watcher = w }) c sel e h in
      record { tidy = r.tidy; running = r.running; ready = r.ready }

  round-RoundEnds :
      (s : Session World) (backoff : ℕ) (r : Round)
      → s.client ≡ none
      → IsTidy s
      → RoundEnds s r.selected (round is_domain_name s backoff r)
  unfolding round after_connect connect
  round-RoundEnds s backoff r e h = at r.attempt
    where
      empty : s.closed ≡ below s.opened
      empty = ground (arith, e, h)

      at :
          (a : Attempt)
          → RoundEnds s r.selected (after_connect is_domain_name (connect s a) backoff r)
      at no_client = record { tidy = h; running = refl; ready = inl e }
      at no_ping = record { tidy = ground (arith, e, empty); running = refl; ready = inl e }
      at pinged =
          let t : Session World = record s { opened = suc s.opened; client = some s.opened } in
          let (w, synced) = sync_containers is_domain_name true r.listed s.watcher in
          let ends = after_sync-RoundEnds t s.opened w synced r.selected refl (refl, empty) in
          record { tidy = ends.tidy; running = ends.running; ready = ends.ready }

  -- Tidy, and started as the session was.
  abbrev Stays : Session World → Session World → Type 0
  Stays s t = IsTidy t × (t.running ≡ s.running)

  continue_by-Stays :
      (rest : Session World → ℕ → Session World × Trace) (cut : Option ℕ) (s : Session World)
      (sel : List Selected)
      → ((t : Session World) (next : ℕ)
          → IsTidy t
          → (t.client ≡ none) ⊎ (cancels sel ≡ true)
          → Stays t (rest t next).0)
      → (t : Session World × After) → RoundEnds s sel t
      → Stays s (continue_by rest cut t).0
  unfolding continue_by after_sleep
  continue_by-Stays rest cut s sel k (t, waiting) p = (p.tidy, p.running)
  continue_by-Stays rest cut s sel k (t, again none next) p =
      let (tidy, running) = k t next p.tidy p.ready in (tidy, running ∙ p.running)
  continue_by-Stays rest cut s sel k (t, again (some d) next) p = slept (sleep d cut)
    where
      slept : (x : ℕ × Bool) → Stays s (after_sleep rest t next x).0
      slept (d, true) = (p.tidy, p.running)
      slept (d, false) =
          let (tidy, running) = k t next p.tidy p.ready in (tidy, running ∙ p.running)

  -- The loop, from a session with no connection, or with its context done.
  watch_loop-Stays :
      (s : Session World) (backoff : ℕ) (rs : List Round)
      → IsOrderly rs
      → IsTidy s
      → (s.client ≡ none) ⊎ (head_done rs ≡ true)
      → Stays s (watch_loop is_domain_name s backoff rs).0
  unfolding watch_loop
  watch_loop-Stays s backoff [] o h e = (h, refl)
  watch_loop-Stays s backoff (r ∷ rs) (orderly, o) h e =
      let rest = λ (t : Session World) (next : ℕ). watch_loop is_domain_name t next rs in
      let trace : Trace = record { sleeps = []; returned = true } in
      let test = λ (b : Bool).
        if b then (s, trace) else continue_by rest r.cut (round is_domain_name s backoff r) in
      elim (Bool-cases r.done) [
        | inl d ↦ subst (λ b. Stays s (test b).0) (sym d) (h, refl)
        | inr d ↦
            subst (λ b. Stays s (test b).0) (sym d)
              (continue_by-Stays rest r.cut s r.selected
                (λ t next tidy ready.
                  watch_loop-Stays t next rs o tidy (ground (arith, orderly, ready)))
                (round is_domain_name s backoff r)
                (round-RoundEnds s backoff r (ground (arith, d, e)) h))
      ]

stopped :
    {World : Type 0} (s : Session World)
    → IsTidy s
    → s.running ≡ true
    → ((stop s).client ≡ none) × ((stop s).closed ≡ below (stop s).opened)
unfolding stop close_client
stopped s h run = ground (arith, h, run)

-- A watcher that is started, goes through any rounds of its loop and is stopped has no connection
-- left, and has closed each connection that it opened, once and before the next was opened; provided
-- that a context that is done among the events of a round is done at the head of the next.
pub stop-watch_loop :
    {World : Type 0} (is_domain_name : Bytes → Bool) (w : Watcher World)
    (inspect : ℕ → Bytes → Option InspectResponse) (rs : List Round)
    → IsOrderly rs
    → ((stop (watch_loop is_domain_name (start (new_session w inspect)).0 second rs).0).client
        ≡ none)
      × ((stop (watch_loop is_domain_name (start (new_session w inspect)).0 second rs).0).closed
          ≡ below
              (stop
                (watch_loop is_domain_name (start (new_session w inspect)).0 second rs).0).opened)
unfolding start new_session
stop-watch_loop is_domain_name w inspect rs o =
    let s = (start (new_session w inspect)).0 in
    let (tidy, running) = watch_loop-Stays is_domain_name s second rs o refl (inl refl) in
    stopped (watch_loop is_domain_name s second rs).0 tidy running
