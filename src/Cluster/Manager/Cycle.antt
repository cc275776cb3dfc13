-- ===== src/Cluster/Manager/Cycle.antt =====
-- plugins/docker-cluster/cluster.go, the life of the manager: Start, Stop, Join and
-- discoveryJoinLoop. memberlist and the sockets of the discovery are outside, and answer.
pub mod Stopped
pub mod Joining
use joyride.Common.{
  ℕ, ◌*◌, ℤ, Bytes, Bool, true, false, not, ◌||◌, Option, none, some, List, [], ◌∷◌, ◌++◌, length,
  ltb, ◌==◌, if◌then◌else◌,
}
use joyride.Cluster.Delegate.{Delegate}
use joyride.Cluster.Delegate as Delegate
use joyride.Cluster.Config.{ClusterConfig}
use joyride.Cluster.Discovery.{PeerDiscovery, new_peer_discovery, get_peers}
use joyride.Cluster.Manager.{Manager}

-- The manager with its discovery; `cancel` says that it has a context to cancel.
pub record Cluster (Queue : Type 0) : Type 0 where
  pub manager : Manager Queue
  pub discovery : Option PeerDiscovery
  pub cancel : Bool

-- An answer from outside: an error or a value.
pub data Answer (A : Type 0) : Type 0 where
  fails : Bytes → Answer A
  gives : A → Answer A

-- The fields of memberlist's configuration that `Start` sets; times in milliseconds.
pub record MemberlistConfig : Type 0 where
  pub name : Bytes
  pub bind_addr : Bytes
  pub bind_port : ℤ
  pub advertise_port : ℤ
  pub secret_key : Option Bytes
  pub gossip_interval : ℕ
  pub probe_interval : ℕ
  pub probe_timeout : ℕ
  pub suspicion_mult : ℕ

unfoldable pub memberlist_config : ClusterConfig → MemberlistConfig
memberlist_config c = record {
  name = c.node_name;
  bind_addr = c.bind_addr;
  bind_port = c.port;
  advertise_port = c.port;
  secret_key = if ltb 0 (length c.secret_key) then some c.secret_key else none;
  gossip_interval = 200;
  probe_interval = 1000;
  probe_timeout = 500;
  suspicion_mult = 4;
}

-- What `Start` comes to. A manager that was stopped has no delegate, and its use is a nil reference.
pub data Started : Type 0 where
  started : Started
  not_created : Bytes → Started
  nil_delegate : Started

-- What `Stop` does to the parts that it has taken out, in its order.
pub data Effect (Queue : Type 0) : Type 0 where
  cancel_context stop_discovery : Effect Queue
  stop_delegate : Delegate Queue → Effect Queue
  leave shutdown : Effect Queue

abbrev pub when : {A : Type 0} → Bool → A → List A
when true a = a ∷ []
when false a = []

-- What `Join` comes to: the number of nodes that answered, the error, nobody to ask, or the loop
-- that looks for peers; without memberlist it is a nil reference.
pub data Joined : Type 0 where
  joined : ℕ → Joined
  not_joined : Bytes → Joined
  standalone searching nil_memberlist : Joined

-- What the loop finds at a tick: whether its context is done, the manager, and what memberlist
-- would answer to a join.
pub record Tick (Queue : Type 0) : Type 0 where
  pub done : Bool
  pub cluster : Cluster Queue
  pub answer : Answer ℕ

-- The joins that were tried, with their peers, and whether the loop has returned.
pub record Joins : Type 0 where
  pub tried : List (List Bytes)
  pub returned : Bool

abbrev pub then_try : List Bytes → Joins → Joins
then_try peers j = record j { tried = peers ∷ j.tried }

-- What a tick calls for: the end of the loop, nothing, or a join.
pub data Call : Type 0 where
  quit skip : Call
  try : List Bytes → Call

abbrev pub discovery_of : ClusterConfig → PeerDiscovery
discovery_of c = new_peer_discovery c.node_name c.port c.discovery_port

unfoldable pub call_of : Option PeerDiscovery → Option ℕ → Call
call_of none members = quit
call_of (some pd) none = quit
call_of (some pd) (some n) =
    let peers = get_peers pd in
    if length peers == 0 then skip else if ltb 1 n then skip else try peers

module _ {Queue : Type 0} where
  unfoldable pub new_cluster : Manager Queue → Cluster Queue
  new_cluster m = record { manager = m; discovery = none; cancel = false }

  -- With memberlist and the delegate: it has `members` nodes.
  unfoldable pub started_with : Cluster Queue → ℕ → Delegate Queue → Cluster Queue
  started_with cm members d =
      let config = cm.manager.config in
      record cm {
        manager = record cm.manager {
          delegate = some (Delegate.start d);
          num_members = some members;
        };
        discovery = if length config.seeds == 0 then some (discovery_of config) else cm.discovery;
        cancel = true;
      }

  -- `create` is `memberlist.Create`, with the number of members of what it gives.
  unfoldable pub start : (MemberlistConfig → Answer ℕ) → Cluster Queue → Cluster Queue × Started
  unfolding started_with
  start create cm = elim (create (memberlist_config cm.manager.config)) [
    | fails e ↦ (record cm { cancel = true }, not_created e)
    | gives members ↦ elim cm.manager.delegate [
      | none ↦ (
        record cm { manager = record cm.manager { num_members = some members }; cancel = true },
        nil_delegate,
      )
      | some d ↦ (started_with cm members d, started)
    ]
  ]

  abbrev pub stopping_delegate : Option (Delegate Queue) → List (Effect Queue)
  stopping_delegate none = []
  stopping_delegate (some d) = stop_delegate (Delegate.stop d) ∷ []

  abbrev pub leaving : Option ℕ → List (Effect Queue)
  leaving none = []
  leaving (some n) = leave ∷ shutdown ∷ []

  abbrev pub stopping_discovery : Option PeerDiscovery → List (Effect Queue)
  stopping_discovery none = []
  stopping_discovery (some pd) = stop_discovery ∷ []

  -- `shut` is the error of memberlist's Shutdown, if it has one; that of Leave is only logged.
  unfoldable pub stop :
      Option Bytes → Cluster Queue → Cluster Queue × List (Effect Queue) × Option Bytes
  stop shut cm = (
    record cm {
      manager = record cm.manager { delegate = none; num_members = none };
      discovery = none;
      cancel = false;
    },
    when cm.cancel cancel_context
        ++ (stopping_discovery cm.discovery
            ++ (stopping_delegate cm.manager.delegate ++ leaving cm.manager.num_members)),
    elim cm.manager.num_members [ none ↦ none | some n ↦ shut ],
  )

  -- `answer` is memberlist's to a join of the seeds.
  unfoldable pub join : (List Bytes → Answer ℕ) → Cluster Queue → Joined
  join answer cm =
      let seeds = cm.manager.config.seeds in
      if ltb 0 (length seeds)
      then elim cm.manager.num_members [
        | none ↦ nil_memberlist
        | some n ↦ elim (answer seeds) [ fails e ↦ not_joined e | gives k ↦ joined k ]
      ]
      else elim cm.discovery [ none ↦ standalone | some pd ↦ searching ]

  unfoldable pub discovery_join_loop : List (Tick Queue) → Joins
  discovery_join_loop [] = record { tried = []; returned = false }
  discovery_join_loop (t ∷ ts) =
      let rest = discovery_join_loop ts in
      if t.done
      then record { tried = []; returned = true }
      else elim (call_of t.cluster.discovery t.cluster.manager.num_members) [
        | quit ↦ record { tried = []; returned = true }
        | skip ↦ rest
        | try peers ↦ then_try peers rest
      ]
