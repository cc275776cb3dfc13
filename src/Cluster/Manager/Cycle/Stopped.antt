-- ===== src/Cluster/Manager/Cycle/Stopped.antt =====
-- What is left of a manager after Stop, and what Stop does to a manager that was started.
use joyride.Common.{
  ℕ, ℤ, Bytes, Bool, true, false, Option, none, some, List, [], ◌∷◌, ◌++◌, length, ◌==◌, ◌≡◌, refl,
  arith, if◌then◌else◌,
}
use joyride.Cluster.Delegate.{Wire, BroadcastQueue, Delegate, Loop, running, stopped, idle}
use joyride.Cluster.Delegate as Delegate
use joyride.Cluster.Manager.{num_nodes, is_healthy, notify_record_add, notify_record_remove}
use joyride.Cluster.Manager.Cycle.{
  Cluster, Answer, gives, MemberlistConfig, memberlist_config, started, cancel_context,
  stop_discovery, stop_delegate, leave, shutdown, when, Tick, start, started_with, stop,
  discovery_join_loop, call_of, discovery_of,
}

module _ {Queue : Type 0} where
  -- After `Stop` the manager counts itself as the only node, is not healthy, takes no notification,
  -- has nothing left to stop, and its loop that looks for peers ends at the next tick without a join.
  stop-quiet :
      (wire : Wire) (q : BroadcastQueue Queue) (cm : Cluster Queue) (shut other : Option Bytes)
      (hostname ip : Bytes) (t : ℤ) (done : Bool) (answer : Answer ℕ) (ticks : List (Tick Queue))
      → (num_nodes (stop shut cm).0.manager ≡ 1)
        × (is_healthy (stop shut cm).0.manager ≡ false)
        × (notify_record_add wire q (stop shut cm).0.manager hostname ip t
            ≡ (stop shut cm).0.manager)
        × (notify_record_remove wire q (stop shut cm).0.manager hostname t
            ≡ (stop shut cm).0.manager)
        × (stop other (stop shut cm).0 ≡ ((stop shut cm).0, [], none))
        × (discovery_join_loop
              (record { done = done; cluster = (stop shut cm).0; answer = answer } ∷ ticks)
            ≡ record { tried = []; returned = true })
  unfolding num_nodes is_healthy notify_record_add notify_record_remove stop discovery_join_loop
      call_of
  stop-quiet wire q cm shut other hostname ip t done answer ticks =
      (refl, refl, refl, refl, refl, ground arith)

  start-ok :
      (create : MemberlistConfig → Answer ℕ) (cm : Cluster Queue) (d : Delegate Queue) (n : ℕ)
      → create (memberlist_config cm.manager.config) ≡ gives n
      → cm.manager.delegate ≡ some d
      → start create cm ≡ (started_with cm n d, started)
  unfolding start
  start-ok create cm d n c e = ground (arith, c, e)

  -- A manager with a delegate that `Start` could give a memberlist has as many nodes as that, and its
  -- delegate runs; if it has no seeds, it looks for peers under its own name and port. `Stop` then
  -- cancels the context, stops the discovery if that was started, waits for the delegate's goroutine,
  -- leaves the cluster and shuts memberlist down, in this order, and returns the error of the last.
  start-stop :
      (create : MemberlistConfig → Answer ℕ) (cm : Cluster Queue) (d : Delegate Queue) (n : ℕ)
      (shut : Option Bytes)
      → create (memberlist_config cm.manager.config) ≡ gives n
      → cm.manager.delegate ≡ some d
      → cm.discovery ≡ none
      → (num_nodes (start create cm).0.manager ≡ n)
        × ((start create cm).0.manager.delegate ≡ some (record d { loop = running }))
        × ((start create cm).0.discovery ≡ (
            if length cm.manager.config.seeds == 0
            then some (discovery_of cm.manager.config)
            else none))
        × ((stop shut (start create cm).0).1
            ≡ cancel_context
              ∷ (when (length cm.manager.config.seeds == 0) stop_discovery
                  ++ (stop_delegate (record d { loop = stopped }) ∷ leave ∷ shutdown ∷ [])))
        × ((stop shut (start create cm).0).2 ≡ shut)
  unfolding num_nodes stop started_with Delegate.start Delegate.stop
  start-stop create cm d n shut c e none_yet =
      rw (start-ok create cm d n c e)
        (refl, refl, ground (arith, none_yet), ground (arith, none_yet), refl)
