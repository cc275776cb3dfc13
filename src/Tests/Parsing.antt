-- ===== src/Tests/Parsing.antt =====
-- plugins/traefik-externals/parser.go.
use joyride.Common.{
  All, List, Bytes, codes, same, contains, split, to_lower, ◌||◌, [], ◌∷◌, ◌++◌, ◌≡◌, refl,
  if◌then◌else◌,
}
use joyride.Common.Map.{Map, get}
use joyride.Common.Distinct.{IsDistinct}
use joyride.Traefik.Pattern.{after_prefix, until, match_group, find_all}
use joyride.Traefik.Env.{
  after_blanks, closed_key, match_reference, references, replace_first, resolve_references,
  resolve_env_template,
}
use joyride.Traefik.Env.Pieces.{Piece, template_of, IsPlain}
use joyride.Traefik.Env.Resolve.{all_set, filled, resolve_env_template-filled}
use joyride.Traefik.Parser.{
  comment_index, strip_line, join, strip_comments, host_matches, host_sni_matches, take_host,
  take_hosts, extract_hosts_from_matches, parse_content,
}
use joyride.Traefik.Parser.Hosts.{named_in, parse_content-exact}

abbrev env : Map Bytes
env = (codes "DOMAIN", codes "Example.com") ∷ []

abbrev template : Bytes
template = codes "app.{{env  \"DOMAIN\"}}"

-- Two hosts in one rule, one with a variable, one without its value, and one in a comment.
abbrev config : Bytes
config =
    codes "rule: Host(`app.{{env  \"DOMAIN\"}}`, `a.b`) # Host(`c`)"
    ++ (10 ∷ codes "HostSNI(`{{env \"X\"}}`, `a.b`)")

resolved : resolve_env_template env template ≡ codes "app.Example.com"
unfolding resolve_env_template resolve_references references match_reference closed_key after_blanks
    replace_first after_prefix until same get
resolved = refl

parsed : parse_content env config ≡ codes "app.example.com" ∷ codes "a.b" ∷ []
unfolding parse_content extract_hosts_from_matches take_hosts take_host strip_comments strip_line
    comment_index join find_all match_group resolve_env_template resolve_references references
    match_reference closed_key after_blanks replace_first after_prefix until same contains split
    to_lower get
parsed = refl

-- Two references to one variable, in a template of two pieces and a text.
abbrev pieces : List Piece
pieces =
    record { literal = codes "app."; blanks = codes "  "; key = codes "DOMAIN" }
    ∷ record { literal = codes "/"; blanks = codes " "; key = codes "DOMAIN" }
    ∷ []

pieces-template :
    template_of pieces (codes "!") ≡ codes "app.{{env  \"DOMAIN\"}}/{{env \"DOMAIN\"}}!"
pieces-template = refl

pieces-IsPlain : All (IsPlain env) pieces
unfolding same get
pieces-IsPlain = (
  record {
    literal = refl;
    blanks = refl;
    some_blank = refl;
    key = refl;
    some_key = refl;
    value = refl;
  },
  (
    record {
      literal = refl;
      blanks = refl;
      some_blank = refl;
      key = refl;
      some_key = refl;
      value = refl;
    },
    tt,
  ),
)

resolve_env_template-filled_example :
    resolve_env_template env (template_of pieces (codes "!"))
    ≡ (if all_set env pieces then filled env pieces (codes "!") else [])
resolve_env_template-filled_example =
    resolve_env_template-filled env pieces (codes "!") pieces-IsPlain refl

-- A value that holds a reference: the first occurrence of the second reference is in that value.
abbrev nested : Map Bytes
nested = (codes "A", codes "x{{env \"B\"}}") ∷ (codes "B", codes "v") ∷ []

nested-resolved :
    resolve_env_template nested (codes "{{env \"A\"}}-{{env \"B\"}}") ≡ codes "xv-{{env \"B\"}}"
unfolding resolve_env_template resolve_references references match_reference closed_key after_blanks
    replace_first after_prefix until same get
nested-resolved = refl

parse_content-exact_example :
    IsDistinct (parse_content env config)
    × ((h : Bytes)
        → contains (parse_content env config) h ≡ (
            named_in env (host_matches (strip_comments config)) h
            || named_in env (host_sni_matches (strip_comments config)) h))
parse_content-exact_example = parse_content-exact env config
