-- ===== src/Traefik/Parser.antt =====
-- plugins/traefik-externals/parser.go: the hostnames in the text of a Traefik configuration, with the
-- environment of the parser as a map.
pub mod Comments
pub mod Hosts
use joyride.Common.{
  ℕ, zero, suc, ◌+◌, Bytes, codes, same, contains, split, to_lower, Bool, true, false, not, ◌&&◌,
  ◌||◌, Option, none, some, List, [], ◌∷◌, ◌++◌, length, ltb, ◌==◌, if◌then◌else◌, map, take, drop,
}
use joyride.Common.Map.{Map}
use joyride.Traefik.Pattern.{find_all}
use joyride.Traefik.Env.{resolve_env_template}

abbrev pub max_file_size : ℕ
max_file_size = 1048576

abbrev pub middleware_only_files : List Bytes
middleware_only_files =
    codes "middleware.yml"
    ∷ codes "authentik_middleware.yml"
    ∷ codes "authelia_middlewares.yml"
    ∷ codes "crowdsec-bouncer.yml"
    ∷ []

unfoldable pub is_middleware_only : Bytes → Bool
is_middleware_only filename = contains middleware_only_files filename

-- The loop over a line: the index of the first `#` outside backticks.
unfoldable pub comment_index : Bool → ℕ → Bytes → Option ℕ
comment_index in_backtick i [] = none
comment_index in_backtick i (ch ∷ rest) = elim (ch == b'`') [
  | true ↦ comment_index (not in_backtick) (suc i) rest
  | false ↦ elim (ch == b'#' && not in_backtick) [
    | true ↦ some i
    | false ↦ comment_index in_backtick (suc i) rest
  ]
]

unfoldable pub strip_line : Bytes → Bytes
strip_line line = elim (comment_index false 0 line) [ none ↦ line | some i ↦ take i line ]

-- `strings.Join` with a separator of one byte.
unfoldable pub join : ℕ → List Bytes → Bytes
join sep [] = []
join sep (s ∷ []) = s
join sep (s ∷ t ∷ ts) = s ++ (sep ∷ join sep (t ∷ ts))

unfoldable pub strip_comments : Bytes → Bytes
strip_comments content = join b'\n' (map strip_line (split b'\n' content))

-- Host\(([^)]+)\), HostSNI\(([^)]+)\) and `([^`]+)`.
abbrev pub host_matches : Bytes → List Bytes
host_matches = find_all (codes "Host(") b')' 0

abbrev pub host_sni_matches : Bytes → List Bytes
host_sni_matches = find_all (codes "HostSNI(") b')' 0

abbrev pub backtick_matches : Bytes → List Bytes
backtick_matches = find_all (codes "`") b'`' 0

-- One quoted string; `hosts` is what was seen so far, too.
unfoldable pub take_host : Map Bytes → List Bytes → Bytes → List Bytes
take_host env hosts host_template =
    let resolved = resolve_env_template env host_template in
    if same resolved []
    then hosts
    else if contains hosts (to_lower resolved)
    then hosts
    else hosts ++ (to_lower resolved ∷ [])

unfoldable pub take_hosts : Map Bytes → List Bytes → List Bytes → List Bytes
take_hosts env hosts [] = hosts
take_hosts env hosts (t ∷ ts) = take_hosts env (take_host env hosts t) ts

unfoldable pub extract_hosts_from_matches : Map Bytes → List Bytes → List Bytes → List Bytes
extract_hosts_from_matches env hosts [] = hosts
extract_hosts_from_matches env hosts (inner ∷ rest) =
    extract_hosts_from_matches env (take_hosts env hosts (backtick_matches inner)) rest

unfoldable pub parse_content : Map Bytes → Bytes → List Bytes
parse_content env content =
    let stripped = strip_comments content in
    extract_hosts_from_matches env (extract_hosts_from_matches env [] (host_matches stripped))
      (host_sni_matches stripped)

-- The hosts, or an error of reading or of size; `read` is what the file holds, `none` if it cannot
-- be read.
pub data ParsedFile : Type 0 where
  hosts : List Bytes → ParsedFile
  unreadable too_large : ParsedFile

unfoldable pub parse_file : Map Bytes → Option Bytes → ParsedFile
parse_file env none = unreadable
parse_file env (some read) =
    let content = take (suc max_file_size) read in
    if ltb max_file_size (length content) then too_large else hosts (parse_content env content)
