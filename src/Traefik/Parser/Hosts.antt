-- ===== src/Traefik/Parser/Hosts.antt =====
-- What `ParseContent` and `ParseFile` return.
use joyride.Common.{
  ℕ, Bytes, same, same_iff, contains, contains-concat, to_lower, Bool, true, false, not, ◌&&◌, ◌||◌,
  some, List, [], ◌∷◌, length, take, length-take, take_all, ltb, ◌≡◌, refl, arith, if◌then◌else◌,
  Bool-cases, inl, inr, suc,
}
use joyride.Common.Map.{Map}
use joyride.Common.Distinct.{IsDistinct, IsDistinct-concat}
use joyride.Traefik.Env.{resolve_env_template}
use joyride.Traefik.Parser.{
  host_matches, host_sni_matches, backtick_matches, strip_comments, take_host, take_hosts,
  extract_hosts_from_matches, parse_content, parse_file, ParsedFile, hosts, too_large,
  max_file_size,
}

-- The template resolves, and in lower case it is the host.
abbrev pub is_host : Map Bytes → Bytes → Bytes → Bool
is_host env template h =
    not (same (resolve_env_template env template) [])
    && same (to_lower (resolve_env_template env template)) h

abbrev pub named_by : Map Bytes → List Bytes → Bytes → Bool
named_by env [] h = false
named_by env (t ∷ ts) h = is_host env t h || named_by env ts h

-- A string in backticks inside one of the matches is the host.
abbrev pub named_in : Map Bytes → List Bytes → Bytes → Bool
named_in env [] h = false
named_in env (inner ∷ rest) h = named_by env (backtick_matches inner) h || named_in env rest h

still_over :
    (n : ℕ) (read : Bytes) → ltb n (length read) ≡ true → ltb n (length (take (suc n) read)) ≡ true
still_over n read h = ground (arith, length-take (suc n) read)

all_read : (n : ℕ) (read : Bytes) → ltb n (length read) ≡ false → take (suc n) read ≡ read
all_read n read h = take_all (suc n) read (ground arith)

read_up_to :
    (n : ℕ) (read : Bytes) (f : Bytes → ParsedFile)
    → (if ltb n (length (take (suc n) read)) then too_large else f (take (suc n) read))
      ≡ (if ltb n (length read) then too_large else f read)
read_up_to n read f = elim (Bool-cases (ltb n (length read))) [
  | inl e ↦ rw (e, still_over n read e) refl
  | inr e ↦ rw (all_read n read e) refl
]

module _ (env : Map Bytes) where
  contains-take_host :
      (xs : List Bytes) (t h : Bytes)
      → contains (take_host env xs t) h ≡ (contains xs h || is_host env t h)
  unfolding take_host
  contains-take_host xs t h = ground (
    arith,
    same_iff (to_lower (resolve_env_template env t)) h,
    contains-concat xs (to_lower (resolve_env_template env t)) h,
  )

  take_host-IsDistinct :
      (xs : List Bytes) (t : Bytes) → IsDistinct xs → IsDistinct (take_host env xs t)
  unfolding take_host
  take_host-IsDistinct xs t d =
      ground (arith, IsDistinct-concat xs (to_lower (resolve_env_template env t)) d)

  contains-take_hosts :
      (xs ts : List Bytes) (h : Bytes)
      → contains (take_hosts env xs ts) h ≡ (contains xs h || named_by env ts h)
  unfolding take_hosts
  contains-take_hosts xs [] h = ground arith
  contains-take_hosts xs (t ∷ ts) h =
      ground (arith, contains-take_hosts (take_host env xs t) ts h, contains-take_host xs t h)

  take_hosts-IsDistinct : (xs ts : List Bytes) → IsDistinct xs → IsDistinct (take_hosts env xs ts)
  unfolding take_hosts
  take_hosts-IsDistinct xs [] d = d
  take_hosts-IsDistinct xs (t ∷ ts) d =
      take_hosts-IsDistinct (take_host env xs t) ts (take_host-IsDistinct xs t d)

  contains-extract :
      (xs ms : List Bytes) (h : Bytes)
      → contains (extract_hosts_from_matches env xs ms) h ≡ (contains xs h || named_in env ms h)
  unfolding extract_hosts_from_matches
  contains-extract xs [] h = ground arith
  contains-extract xs (m ∷ ms) h = ground (
    arith,
    contains-extract (take_hosts env xs (backtick_matches m)) ms h,
    contains-take_hosts xs (backtick_matches m) h,
  )

  extract-IsDistinct :
      (xs ms : List Bytes) → IsDistinct xs → IsDistinct (extract_hosts_from_matches env xs ms)
  unfolding extract_hosts_from_matches
  extract-IsDistinct xs [] d = d
  extract-IsDistinct xs (m ∷ ms) d =
      extract-IsDistinct (take_hosts env xs (backtick_matches m)) ms
        (take_hosts-IsDistinct xs (backtick_matches m) d)

  -- The hosts of a configuration are, each once, exactly what the strings in backticks inside its
  -- Host and HostSNI rules resolve to, in lower case, but for those that resolve to nothing; rules
  -- in comments do not count.
  pub parse_content-exact :
      (content : Bytes)
      → IsDistinct (parse_content env content)
        × ((h : Bytes)
            → contains (parse_content env content) h ≡ (
                named_in env (host_matches (strip_comments content)) h
                || named_in env (host_sni_matches (strip_comments content)) h))
  unfolding parse_content contains
  parse_content-exact content =
      let hs = host_matches (strip_comments content) in
      let ss = host_sni_matches (strip_comments content) in
      let found = extract_hosts_from_matches env [] hs in
      (
        extract-IsDistinct found ss (extract-IsDistinct [] hs tt),
        λ h. ground (arith, contains-extract found ss h, contains-extract [] hs h),
      )

  -- A file that can be read is refused exactly if it is longer than 1 MiB; otherwise its hosts are
  -- those of its whole content, although no more than one byte over the limit is read.
  parse_file_lem :
      (read : Bytes)
      → parse_file env (some read)
        ≡ (if ltb max_file_size (length read) then too_large else hosts (parse_content env read))
  unfolding parse_file
  parse_file_lem read = read_up_to max_file_size read (λ content. hosts (parse_content env content))
