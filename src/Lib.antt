-- ===== src/Lib.antt =====
-- joyride: two CoreDNS plugins that answer for hosts of Docker containers and of Traefik routes.
--
-- docker-cluster (plugins/docker-cluster) watches Docker. A container's labels give hostnames
-- (extractHostnames), the watcher writes them to a record store (Records) and calls a callback for
-- each change; in a cluster the callback gossips the change to the other nodes, whose delegate
-- (ClusterDelegate) applies it by last write wins, and memberlist exchanges full states between
-- pairs of nodes. ServeDNS answers from the store. traefik-externals (plugins/traefik-externals)
-- has a store that each load of the configuration files replaces as a whole, and a ServeDNS.
--
-- Files and what they model:
--   Common, Common/*: shared names, Go strings as lists of bytes (Text), int64 with its order (Int),
--     Go maps as association lists in the order of one iteration (Map, Map/Laws).
--   Dns: the part of the DNS library that both handlers use.
--   Cluster/Message: message.go. Cluster/Records and its children: records.go. `Records` is the pair
--     of snapshots; Add, Remove, Lookup, GetAll, Count, AddWithMeta, RemoveWithMeta,
--     GetAllWithMeta, ApplyMessage, GetMeta, NewRecords are the functions add, remove, lookup and
--     so on. Stamp is the order of (timestamp, node), Cell what one hostname holds, the other
--     children are the properties.
--   Cluster/Delegate and its children: delegate.go. The message channel is the list msg_chan, the
--     goroutine is process_message for one round. Delegate/Racing is GetAllWithMeta beside a writer
--     that stores the addresses and then the stamps.
--   Cluster/Hostnames: extractHostnames and isValidHostname of docker_watcher.go.
--   Cluster/Watcher and its children: the rest of docker_watcher.go; Watcher/Events is
--     consumeEvents, Watcher/Backoff nextBackoff, Watcher/Cycle watchLoop with its sleeps, Start, Stop
--     and the connection to Docker.
--   Cluster/Serve: ServeDNS and handleUnknown of docker_cluster.go. Cluster/Version: the version
--     endpoint, with version/version.go.
--   Cluster/Config: cluster_config.go. Cluster/Manager: NewClusterManager, NotifyRecordAdd,
--     NotifyRecordRemove, IsHealthy of cluster.go; Manager/Cycle: Start, Stop, Join and
--     discoveryJoinLoop. Cluster/Discovery: handlePacket and the peer table of discovery.go;
--     Discovery/Listen is listenLoop, Discovery/Broadcast broadcastLoop, Discovery/Cycle Start and
--     Stop.
--   Cluster/Setup and its children: setup.go, parseConfig. `set_one` is one round of the loop over the
--     block, Setup/Settle the environment variables and what comes after them. Cluster/Wiring: the
--     callback that setup puts between the watcher and the manager. Cluster/Plugin: setup as a whole
--     and the shutdown handler.
--   Traefik/Records, Traefik/Serve: records.go and traefik_externals.go of the other plugin.
--   Traefik/Pattern, Traefik/Env, Traefik/Parser: parser.go. Pattern and Env write its regular
--     expressions out as matchers, Env resolves the {{env "VAR"}} templates, Env/Loaded is
--     loadEnvVars, Parser is ParseFile, ParseContent and what they call.
--   Traefik/FileWatcher: file_watcher.go, loadAllConfigs over a listing of the directory and
--     handleEvent with its timer, which fires when it is looked at after its deadline;
--     FileWatcher/Cycle: Start, Stop and watchLoop. Traefik/Setup: setup.go. Traefik/Saved: the watcher in
--     front of the handler.
--   Tests: runs at concrete inputs and instances of the theorems.
--
-- Choices. A method under a mutex is one function from the old state to the new one. The delegate
-- and the watcher share their store by pointer; each model takes it as a field. Text is ASCII:
-- to_lower and trim_space leave bytes of other letters and blanks as they are. Timestamps are
-- integers that are only compared. Only the digits of a number run on fuel (digits_onto of
-- Cluster/Discovery), one more than the number, and more makes no difference
-- (digits_onto_enough). Each other loop is a recursion on the list that it goes through, watchLoop and the other loops of goroutines on the list of what their rounds meet,
-- the goroutine of the delegate on a number of rounds.
--
-- Parameters stand for what is not in this repository: the JSON codec (Wire; Transfers says what a
-- state needs to come through it, its map in any order), memberlist's queue (BroadcastQueue), the
-- domain name check, the parser of IP addresses, the response writer, the zones of `fallthrough`,
-- Docker's answers, the clock, and the callback with what it reaches; also the name of the host, the
-- environment, what a file holds, and what Caddy's controller answers at each property of a block.
--
-- Not modelled: logging, gauges of Prometheus beside the counters named, the plugin chain of the
-- server, HTTP and the sockets themselves; of the interleavings, only those of a reader of
-- GetAllWithMeta with the writers, and of Stop with the loop of the file watcher.
pub mod Common
pub mod Dns
pub mod Cluster
pub mod Traefik
pub mod Tests
