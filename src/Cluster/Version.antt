-- ===== src/Cluster/Version.antt =====
-- plugins/docker-cluster/version/version.go and the version endpoint of docker_cluster.go. The build
-- may set the three texts; net/http and the JSON encoder are outside.
use joyride.Common.{ℕ, Bytes, codes, same, Bool, not, List, [], ◌∷◌, if◌then◌else◌}

pub record Info : Type 0 where
  pub version : Bytes
  pub git_commit : Bytes
  pub build_time : Bytes

-- The variables of the package as they are if the build does not set them.
abbrev pub unset : Info
unset = record { version = codes "dev"; git_commit = codes "unknown"; build_time = codes "unknown" }

-- `vars` are the variables of the package.
unfoldable pub get_info : Info → Info
get_info vars = record {
  version = vars.version;
  git_commit = vars.git_commit;
  build_time = vars.build_time;
}

-- What the handler asks of the response writer, in its order: the header, the encoder of the
-- information, and `http.Error`.
pub data Write : Type 0 where
  set_header : Bytes → Bytes → Write
  encode : Info → Write
  http_error : Bytes → ℕ → Write

-- `fails` says that the encoder returns an error.
unfoldable pub version_handler : Info → Bool → Bytes → List Write
version_handler vars fails method =
    if not (same method (codes "GET"))
    then http_error (codes "Method not allowed") 405 ∷ []
    else set_header (codes "Content-Type") (codes "application/json")
      ∷ encode (get_info vars)
      ∷ (if fails then http_error (codes "Internal Server Error") 500 ∷ [] else [])

-- The server that `ServeVersionHTTP` starts and returns; times in seconds.
pub record Server : Type 0 where
  pub addr : Bytes
  pub pattern : Bytes
  pub read_timeout : ℕ
  pub write_timeout : ℕ
  pub idle_timeout : ℕ

unfoldable pub serve_version_http : Bytes → Server
serve_version_http addr = record {
  addr = addr;
  pattern = codes "/version";
  read_timeout = 5;
  write_timeout = 10;
  idle_timeout = 60;
}
