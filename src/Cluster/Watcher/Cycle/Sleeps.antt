-- ===== src/Cluster/Watcher/Cycle/Sleeps.antt =====
-- How long the loop sleeps.
use Prim.Native.Nat.{min}
use joyride.Common.{
  ℕ, zero, suc, ◌≤◌, Bytes, Bool, false, ◌*◌, ◌^◌, none, some, List, [], ◌∷◌, ◌≡◌, ◌⊎◌,
  if◌then◌else◌,
}
use joyride.Cluster.Watcher.{Watcher}
use joyride.Cluster.Watcher.Backoff.{InRange}
use joyride.Cluster.Watcher.Cycle.{
  Session, no_client, no_ping, pinged, Round, After, again, waiting, connect,
}

-- In nanoseconds.
abbrev pub one_second : ℕ
one_second = 1000000000

abbrev pub five_minutes : ℕ
five_minutes = 300 * one_second

-- The context is done in the sleep of one of the rounds, after that long.
abbrev pub IsCut : List Round → ℕ → Type 0
IsCut [] d = ⊥
IsCut (r ∷ rs) d = (r.cut ≡ some d) ⊎ IsCut rs d

-- A sleep lasts five minutes at most, and one second at least but where the context is done in it.
abbrev pub Lasts : List Round → ℕ → Type 0
Lasts rs d = (d ≤ five_minutes) × ((one_second ≤ d) ⊎ IsCut rs d)

-- What a round asks for.
abbrev Asks : After → Type 0
Asks waiting = Unit
Asks (again none next) = InRange next
Asks (again (some d) next) = InRange d × InRange next

-- A round that does not connect, with no client or with no answer to the ping, while the context goes on.
abbrev pub failing : Bool → Round
failing made = record {
  done = false;
  attempt = if made then no_ping else no_client;
  listed = none;
  selected = [];
  cut = none;
}

-- A round that connects, and then gets no list, while the context goes on.
abbrev pub not_synced : Round
not_synced = record { done = false; attempt = pinged; listed = none; selected = []; cut = none }

-- From the `k`-th failure in a row on: one second, two, four, and so on, up to five minutes.
abbrev pub doubling : ℕ → ℕ → List ℕ
doubling k zero = []
doubling k (suc n) = min (one_second * 2 ^ k) five_minutes ∷ doubling (suc k) n

module _ {World : Type 0} (is_domain_name : Bytes → Bool) where
  -- The session after rounds that do not connect.
  abbrev tried : Session World → List Bool → Session World
  tried s [] = s
  tried s (made ∷ fs) = tried (connect s (failing made).attempt).0 fs
