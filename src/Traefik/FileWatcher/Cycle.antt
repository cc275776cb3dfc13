-- ===== src/Traefik/FileWatcher/Cycle.antt =====
-- plugins/traefik-externals/file_watcher.go, the life of the watcher: Start, Stop and watchLoop.
-- Times are milliseconds.
pub mod Late
use joyride.Common.{
  ℕ, Bytes, Bool, true, false, not, Option, none, some, List, [], ◌∷◌, if◌then◌else◌,
}
use joyride.Traefik.FileWatcher.{FileWatcher, DirEntry, load_all_configs, handle_event, fire}

-- `watching` says that there is an fsnotify watcher that is not closed, `cancelled` that the context
-- is done, and `looping` that the goroutine of `watchLoop` is there.
pub record Session : Type 0 where
  pub watcher : FileWatcher
  pub running : Bool
  pub watching : Bool
  pub cancelled : Bool
  pub looping : Bool

unfoldable pub new_session : FileWatcher → Session
new_session fw = record {
  watcher = fw;
  running = false;
  watching = false;
  cancelled = false;
  looping = false;
}

-- `created` and `added` are the errors of NewWatcher and Add, none for no error; the listing is what
-- the first load finds. The result is the error of `Start`.
unfoldable pub start :
    Option Bytes → Option Bytes → Option (List DirEntry) → Session → Session × Option Bytes
start created added listing s = if s.running then (s, none) else elim created [
  | some e ↦ (s, some e)
  | none ↦ elim added [
    | some e ↦ (s, some e)
    | none ↦ (
      record {
        watcher = load_all_configs s.watcher listing;
        running = true;
        watching = true;
        cancelled = false;
        looping = true;
      },
      none,
    )
  ]
]

-- The two halves of `Stop` of a running watcher: the flag and the pending timer, then the context and
-- the fsnotify watcher, up to the end of the goroutine.
unfoldable pub stop_timer : Session → Session
stop_timer s = record s { running = false; watcher = record s.watcher { deadline = none } }

unfoldable pub stop_loop : Session → Session
stop_loop s = record s { cancelled = true; watching = false; looping = false }

unfoldable pub stop : Session → Session
unfolding stop_timer stop_loop
stop s = if not s.running then s else stop_loop (stop_timer s)

-- What `select` picks in `watchLoop`: the context is done, an event or an error, each with `ok`.
pub data Selected : Type 0 where
  done : Selected
  event : Bool → ℕ → Bytes → Selected
  error : Bool → Bytes → Selected

-- The true result is that the loop goes on.
unfoldable pub select : Session → Selected → Session × Bool
select s done = (record s { looping = false }, false)
select s (event false now name) = (record s { looping = false }, false)
select s (event true now name) = (record s { watcher = handle_event s.watcher now name }, true)
select s (error false e) = (record s { looping = false }, false)
select s (error true e) = (s, true)

unfoldable pub watch_loop : Session → List Selected → Session
watch_loop s [] = s
watch_loop s (x ∷ xs) =
    let rest = watch_loop (select s x).0 xs in if (select s x).1 then rest else (select s x).0

-- The timer, looked at at the time `now`.
unfoldable pub tick : Session → ℕ → Option (List DirEntry) → Session
tick s now listing = record s { watcher = fire s.watcher now listing }
