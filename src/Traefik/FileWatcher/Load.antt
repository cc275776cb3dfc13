-- ===== src/Traefik/FileWatcher/Load.antt =====
-- What resolves after a load of the directory.
use joyride.Common.{
  ℕ, Bytes, same, same_iff, to_lower, Bool, false, ◌&&◌, ◌||◌, Option, none, some, List, [], ◌∷◌,
  All, ◌≡◌, refl, ap, ◌∙◌, arith, if◌then◌else◌, Bool-cases, inl, inr,
}
use joyride.Common.Map.{Map, put}
use joyride.Traefik.Records.{lookup}
use joyride.Traefik.Records.Replace.{last_entry, lookup-replace_all}
use joyride.Traefik.Parser.{parse_file, ParsedFile, hosts, unreadable, too_large}
use joyride.Traefik.FileWatcher.{
  FileWatcher, DirEntry, is_config, enter_hosts, enter_parsed, enter_entry, enter_entries,
  load_all_configs,
}

-- The hostname, but for the case of its letters, is in the list.
abbrev pub names : List Bytes → Bytes → Bool
names [] j = false
names (h ∷ hs) j = same (to_lower h) (to_lower j) || names hs j

abbrev pub named_in : ParsedFile → Bytes → Bool
named_in (hosts hs) j = names hs j
named_in unreadable j = false
named_in too_large j = false

-- A configuration file of the listing names the hostname.
abbrev pub configured : Map Bytes → List DirEntry → Bytes → Bool
configured env [] j = false
configured env (e ∷ es) j =
    (is_config e && named_in (parse_file env e.content) j) || configured env es j

-- A key of the map is the hostname, but for the case of its letters.
abbrev pub has_key : Map Bytes → Bytes → Bool
has_key [] j = false
has_key ((k, v) ∷ m) j = same (to_lower k) (to_lower j) || has_key m j

has_key-put :
    (m : Map Bytes) (k ip j : Bytes)
    → has_key (put m k ip) j ≡ (has_key m j || same (to_lower k) (to_lower j))
unfolding put
has_key-put [] k ip j = ground arith
has_key-put ((h, w) ∷ m) k ip j = ground (arith, same_iff h k, has_key-put m k ip j)

module _ (ip : Bytes) where
  abbrev AllIp : Map Bytes → Type 0
  AllIp m = All (λ e. e.1 ≡ ip) m

  AllIp-put : (m : Map Bytes) (k : Bytes) → AllIp m → AllIp (put m k ip)
  unfolding put
  AllIp-put [] k a = (refl, tt)
  AllIp-put ((h, w) ∷ m) k (e, a) = elim (Bool-cases (same h k)) [
    | inl p ↦ rw (p, put) (refl, a)
    | inr p ↦ rw (p, put) (e, AllIp-put m k a)
  ]

  AllIp-enter_hosts : (m : Map Bytes) (hs : List Bytes) → AllIp m → AllIp (enter_hosts ip m hs)
  unfolding enter_hosts
  AllIp-enter_hosts m [] a = a
  AllIp-enter_hosts m (h ∷ hs) a = AllIp-enter_hosts (put m h ip) hs (AllIp-put m h a)

  has_key-enter_hosts :
      (m : Map Bytes) (hs : List Bytes) (j : Bytes)
      → has_key (enter_hosts ip m hs) j ≡ (has_key m j || names hs j)
  unfolding enter_hosts
  has_key-enter_hosts m [] j = ground arith
  has_key-enter_hosts m (h ∷ hs) j =
      ground (arith, has_key-enter_hosts (put m h ip) hs j, has_key-put m h ip j)

  AllIp-enter_parsed :
      (acc : Map Bytes × ℕ) (p : ParsedFile) → AllIp acc.0 → AllIp (enter_parsed ip acc p).0
  unfolding enter_parsed
  AllIp-enter_parsed (m, n) (hosts hs) a = AllIp-enter_hosts m hs a
  AllIp-enter_parsed (m, n) unreadable a = a
  AllIp-enter_parsed (m, n) too_large a = a

  has_key-enter_parsed :
      (acc : Map Bytes × ℕ) (p : ParsedFile) (j : Bytes)
      → has_key (enter_parsed ip acc p).0 j ≡ (has_key acc.0 j || named_in p j)
  unfolding enter_parsed
  has_key-enter_parsed (m, n) (hosts hs) j = has_key-enter_hosts m hs j
  has_key-enter_parsed (m, n) unreadable j = ground arith
  has_key-enter_parsed (m, n) too_large j = ground arith

  last_entry-AllIp :
      (m : Map Bytes) (j : Bytes) (otherwise : Option Bytes)
      → AllIp m
      → last_entry m j otherwise ≡ (if has_key m j then some ip else otherwise)
  last_entry-AllIp [] j o a = refl
  last_entry-AllIp ((k, v) ∷ m) j o (e, a) =
      last_entry-AllIp m j (if same (to_lower k) (to_lower j) then some v else o) a
      ∙ ground (arith, e)

module _ (fw : FileWatcher) where
  AllIp-enter_entry :
      (acc : Map Bytes × ℕ) (e : DirEntry)
      → AllIp fw.host_ip acc.0
      → AllIp fw.host_ip (enter_entry fw acc e).0
  unfolding enter_entry
  AllIp-enter_entry acc e a = elim (Bool-cases (is_config e)) [
    | inl c ↦
        rw (c, enter_entry) (AllIp-enter_parsed fw.host_ip acc (parse_file fw.env e.content) a)
    | inr c ↦ rw (c, enter_entry) a
  ]

  has_key-enter_entry :
      (acc : Map Bytes × ℕ) (e : DirEntry) (j : Bytes)
      → has_key (enter_entry fw acc e).0 j
        ≡ (has_key acc.0 j || (is_config e && named_in (parse_file fw.env e.content) j))
  unfolding enter_entry
  has_key-enter_entry acc e j = elim (Bool-cases (is_config e)) [
    | inl c ↦
        rw (c, enter_entry) (has_key-enter_parsed fw.host_ip acc (parse_file fw.env e.content) j)
    | inr c ↦ rw (c, enter_entry) (ground arith)
  ]

  AllIp-enter_entries :
      (acc : Map Bytes × ℕ) (es : List DirEntry)
      → AllIp fw.host_ip acc.0
      → AllIp fw.host_ip (enter_entries fw acc es).0
  unfolding enter_entries
  AllIp-enter_entries acc [] a = a
  AllIp-enter_entries acc (e ∷ es) a =
      AllIp-enter_entries (enter_entry fw acc e) es (AllIp-enter_entry acc e a)

  has_key-enter_entries :
      (acc : Map Bytes × ℕ) (es : List DirEntry) (j : Bytes)
      → has_key (enter_entries fw acc es).0 j ≡ (has_key acc.0 j || configured fw.env es j)
  unfolding enter_entries
  has_key-enter_entries acc [] j = ground arith
  has_key-enter_entries acc (e ∷ es) j =
      ground (arith, has_key-enter_entries (enter_entry fw acc e) es j, has_key-enter_entry acc e j)

  -- After a load a hostname resolves exactly if a configuration file of the directory names it, in
  -- any case of its letters, and then to the address of the host; whatever else the store had is
  -- gone. If the directory cannot be read, the store stays as it was.
  pub load_all_configs_lem :
      (entries : List DirEntry) (j : Bytes)
      → (lookup (load_all_configs fw (some entries)).records j
          ≡ (if configured fw.env entries j then some fw.host_ip else none))
        × (lookup (load_all_configs fw none).records j ≡ lookup fw.records j)
  unfolding load_all_configs
  load_all_configs_lem entries j =
      let loaded = enter_entries fw ([], fw.parse_errors_total) entries in
      (
        (lookup-replace_all fw.records loaded.0).0 j
            ∙ last_entry-AllIp fw.host_ip loaded.0 j none
                (AllIp-enter_entries ([], fw.parse_errors_total) entries tt)
            ∙ ap (λ b. if b then some fw.host_ip else none)
                (has_key-enter_entries ([], fw.parse_errors_total) entries j),
        refl,
      )
