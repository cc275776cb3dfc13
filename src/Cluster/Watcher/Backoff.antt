-- ===== src/Cluster/Watcher/Backoff.antt =====
-- plugins/docker-cluster/docker_watcher.go, nextBackoff: how long the loop means to sleep.
-- Durations are nanoseconds.
use Prim.Native.Nat.{min}
use native.Mathlib.Nat.{pow-suc}
use joyride.Common.{ℕ, suc, ◌*◌, ◌^◌, ◌≤◌, ltb, if◌then◌else◌, ◌≡◌, arith}

abbrev pub second : ℕ
second = 1000000000

abbrev pub max_backoff : ℕ
max_backoff = 5 * 60 * second

unfoldable pub next_backoff : ℕ → ℕ → ℕ
next_backoff current limit = let next = current * 2 in if ltb limit next then limit else next

-- The backoff after `n` failures to connect in a row: doubled for each, up to five minutes.
abbrev pub backoff_after : ℕ → ℕ
backoff_after n = min (second * 2 ^ n) max_backoff

pub next_backoff_after :
    (n : ℕ) → next_backoff (backoff_after n) max_backoff ≡ backoff_after (suc n)
unfolding next_backoff
next_backoff_after n = ground (arith, pow-suc 2 n)

-- A backoff that the loop may have.
abbrev pub InRange : ℕ → Type 0
InRange d = (second ≤ d) × (d ≤ max_backoff)

pub next_backoff-InRange : (d : ℕ) → InRange d → InRange (next_backoff d max_backoff)
unfolding next_backoff
next_backoff-InRange d h = ground arith
