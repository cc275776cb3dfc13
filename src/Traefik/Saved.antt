-- ===== src/Traefik/Saved.antt =====
-- plugins/traefik-externals, the watcher and the handler together: from a file that is saved to what
-- a client is told. The handler's store is the watcher's.
use joyride.Common.{
  ℕ, ◌+◌, ◌<◌, ◌≤◌, Bytes, Bool, true, ◌&&◌, Option, none, some, List, [], ◌==◌, ◌≡◌, ap, ◌∙◌,
  arith, if◌then◌else◌,
}
use joyride.Dns.{ARecord, Request, Reply, query_name, parse_ipv4, type_a, answers}
use joyride.Cluster.Serve.Answers.{one_record}
use joyride.Traefik.Records.{Records}
use joyride.Traefik.FileWatcher.{FileWatcher, DirEntry, load_all_configs, handle_event, fire}
use joyride.Traefik.FileWatcher.Load.{configured, load_all_configs_lem}
use joyride.Traefik.FileWatcher.Debounce.{
  Event, watch, counts, last_time, IsBurst, watch_loads_once,
}
use joyride.Traefik.Serve.{TraefikExternals, serve_dns}
use joyride.Traefik.Serve.Answers.{traefik_answers}

module _ (writer : Reply → Option Bytes) (parse_ip : Bytes → Option Bytes) (ttl : ℕ)
    (through : Bytes → Bool) where
  abbrev served_by : Records → TraefikExternals
  served_by r = record { records = r; ttl = ttl; through = through }

  -- The answer section for a question.
  abbrev pub told : FileWatcher → Request → List ARecord
  told fw q = answers (serve_dns writer parse_ip (served_by fw.records) q).0

  told-load_all_configs :
      (fw : FileWatcher) (entries : List DirEntry) (q : Request)
      → told (load_all_configs fw (some entries)) q ≡ (
          if q.qtype == type_a && configured fw.env entries (query_name q)
          then one_record q ttl (parse_ipv4 parse_ip fw.host_ip)
          else [])
  told-load_all_configs fw entries q =
      traefik_answers writer parse_ip (served_by (load_all_configs fw (some entries)).records) q
      ∙ ground (arith, (load_all_configs_lem fw entries (query_name q)).0)

  -- Events about configuration files come in a burst, each less than half a second behind the one
  -- before. Until half a
  -- second has passed since the last, a client is told what it was told before. From then on, once the
  -- timer has fired, it is told an address exactly if it asks for type A and a configuration file of
  -- the directory, as it is by that time, names the host: the address of the host, if that is an IPv4
  -- address, with the configured TTL.
  pub told-saved :
      (fw : FileWatcher) (t early now : ℕ) (name : Bytes) (es : List Event)
      (entries : List DirEntry) (q : Request)
      → counts name ≡ true
      → IsBurst t es
      → early < last_time t es + 500
      → last_time t es + 500 ≤ now
      → (told (fire (watch (handle_event fw t name) es) early (some entries)) q ≡ told fw q)
        × (told (fire (watch (handle_event fw t name) es) now (some entries)) q ≡ (
            if q.qtype == type_a && configured fw.env entries (query_name q)
            then one_record q ttl (parse_ipv4 parse_ip fw.host_ip)
            else []))
  told-saved fw t early now name es entries q c b lt le =
      let (burst, waits, loads, again) =
        watch_loads_once fw t early now now name es (some entries) (some entries) c b lt le in
      (
        ap (λ x. told x q) (waits ∙ burst),
        ap (λ x. told x q) loads ∙ told-load_all_configs (record fw { deadline = none }) entries q,
      )
