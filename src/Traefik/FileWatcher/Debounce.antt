-- ===== src/Traefik/FileWatcher/Debounce.antt =====
-- One load for a burst of events.
use joyride.Common.{
  ℕ, ◌+◌, ◌≤◌, ◌<◌, Bytes, Bool, true, not, ◌&&◌, Option, none, some, List, [], ◌∷◌, ◌≡◌, refl, ap,
  ◌∙◌, arith,
}
use joyride.Traefik.Parser.{is_middleware_only}
use joyride.Traefik.FileWatcher.{
  FileWatcher, DirEntry, is_yaml, base, load_all_configs, handle_event, fire,
}

-- The event is about a configuration file.
abbrev pub counts : Bytes → Bool
counts name = is_yaml name && not (is_middleware_only (base name))

-- Events with their times; before each one the timer is looked at, with what the directory holds.
pub record Event : Type 0 where
  pub time : ℕ
  pub name : Bytes
  pub listing : Option (List DirEntry)

pub watch : FileWatcher → List Event → FileWatcher
watch fw [] = fw
watch fw (e ∷ es) = watch (handle_event (fire fw e.time e.listing) e.time e.name) es

-- Every event is about a configuration file and comes less than half a second after the one before,
-- the first after the time given.
abbrev pub IsBurst : ℕ → List Event → Type 0
IsBurst t [] = Unit
IsBurst t (e ∷ es) = (counts e.name ≡ true) × (e.time < t + 500) × IsBurst e.time es

abbrev pub last_time : ℕ → List Event → ℕ
last_time t [] = t
last_time t (e ∷ es) = last_time e.time es

handle_event-counts :
    (fw : FileWatcher) (now : ℕ) (name : Bytes)
    → counts name ≡ true
    → handle_event fw now name ≡ record fw { deadline = some (now + 500) }
unfolding handle_event
handle_event-counts fw now name h = ground (arith, h)

fire_early :
    (fw : FileWatcher) (due now : ℕ) (listing : Option (List DirEntry))
    → fw.deadline ≡ some due
    → now < due
    → fire fw now listing ≡ fw
unfolding fire
fire_early fw due now listing e h = ground (arith, e, h)

watch_burst :
    (fw : FileWatcher) (t : ℕ) (es : List Event)
    → fw.deadline ≡ some (t + 500)
    → IsBurst t es
    → watch fw es ≡ record fw { deadline = some (last_time t es + 500) }
unfolding watch
watch_burst fw t [] d b = ap (λ x. record fw { deadline = x }) d
watch_burst fw t (e ∷ es) d (c, lt, b) =
    ap (λ x. watch x es)
      (ap (λ x. handle_event x e.time e.name) (fire_early fw (t + 500) e.time e.listing d lt)
        ∙ handle_event-counts fw e.time e.name c)
    ∙ watch_burst (record fw { deadline = some (e.time + 500) }) e.time es refl b

load_all_configs-deadline :
    (fw : FileWatcher) (listing : Option (List DirEntry))
    → (load_all_configs fw listing).deadline ≡ fw.deadline
unfolding load_all_configs
load_all_configs-deadline fw none = refl
load_all_configs-deadline fw (some entries) = refl

fire_due :
    (fw : FileWatcher) (due now : ℕ) (listing : Option (List DirEntry))
    → due ≤ now
    → fire (record fw { deadline = some due }) now listing
      ≡ load_all_configs (record fw { deadline = none }) listing
unfolding fire
fire_due fw due now listing h = ground (arith, h)

fire_idle :
    (fw : FileWatcher) (now : ℕ) (listing : Option (List DirEntry))
    → fw.deadline ≡ none
    → fire fw now listing ≡ fw
unfolding fire
fire_idle fw now listing e = ground (arith, e)

-- An event about a configuration file and a burst of further ones, each less than half a second
-- behind the one before, load nothing. The timer does not fire before half a second has passed since
-- the last of them; it fires then, and loads what the directory holds by that time; and without
-- another event it does not fire again.
pub watch_loads_once :
    (fw : FileWatcher) (t early now later : ℕ) (name : Bytes) (es : List Event)
    (listing other : Option (List DirEntry))
    → counts name ≡ true
    → IsBurst t es
    → early < last_time t es + 500
    → last_time t es + 500 ≤ now
    → (watch (handle_event fw t name) es ≡ record fw { deadline = some (last_time t es + 500) })
      × (fire (watch (handle_event fw t name) es) early listing ≡ watch (handle_event fw t name) es)
      × (fire (watch (handle_event fw t name) es) now listing
          ≡ load_all_configs (record fw { deadline = none }) listing)
      × (fire (load_all_configs (record fw { deadline = none }) listing) later other
          ≡ load_all_configs (record fw { deadline = none }) listing)
watch_loads_once fw t early now later name es listing other c b lt le =
    let burst : watch (handle_event fw t name) es
        ≡ record fw { deadline = some (last_time t es + 500) } =
      ap (λ x. watch x es) (handle_event-counts fw t name c)
      ∙ watch_burst (record fw { deadline = some (t + 500) }) t es refl b in
    (
      burst,
      fire_early (watch (handle_event fw t name) es) (last_time t es + 500) early listing
          (ap (λ x. x.deadline) burst) lt,
      ap (λ x. fire x now listing) burst ∙ fire_due fw (last_time t es + 500) now listing le,
      fire_idle (load_all_configs (record fw { deadline = none }) listing) later other
          (load_all_configs-deadline (record fw { deadline = none }) listing),
    )
