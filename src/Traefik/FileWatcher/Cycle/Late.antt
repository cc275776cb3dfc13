-- ===== src/Traefik/FileWatcher/Cycle/Late.antt =====
-- What the timer may still do after Stop.
use joyride.Common.{ℕ, ◌+◌, ◌≤◌, Bytes, true, false, Option, none, List, ◌≡◌, refl, arith}
use joyride.Traefik.FileWatcher.{DirEntry, load_all_configs, handle_event, fire}
use joyride.Traefik.FileWatcher.Debounce.{counts}
use joyride.Traefik.FileWatcher.Cycle.{Session, event, stop, stop_timer, stop_loop, select, tick}

-- Once a running watcher has been stopped with nothing in between, the timer does not load any more. If
-- the loop takes an event about a configuration file between the two halves of `Stop`, the event sets
-- the timer anew, and half a second after it, when the watcher is stopped and its goroutine gone, the
-- directory is loaded all the same.
pub stop_late :
    (s : Session) (t now : ℕ) (name : Bytes) (listing : Option (List DirEntry))
    → s.running ≡ true
    → counts name ≡ true
    → t + 500 ≤ now
    → (tick (stop s) now listing ≡ stop s)
      × ((tick (stop_loop (select (stop_timer s) (event true t name)).0) now listing).watcher
          ≡ load_all_configs (record s.watcher { deadline = none }) listing)
      × ((stop_loop (select (stop_timer s) (event true t name)).0).looping ≡ false)
unfolding tick stop stop_loop select stop_timer handle_event fire
stop_late s t now name listing run c le = (ground (arith, run), ground (arith, c), refl)
