-- ===== src/Cluster/Hostnames.antt =====
-- plugins/docker-cluster/docker_watcher.go: the hostnames in a container's labels.
pub mod Extracted
use joyride.Common.{
  ℕ, Bytes, codes, same, contains, split, trim_space, Bool, true, false, not, ◌&&◌, ◌||◌, Option,
  none, some, List, [], ◌∷◌, ◌++◌, length, ltb, leb, ◌==◌, if◌then◌else◌,
}
use joyride.Common.Map.{Map, get}

abbrev pub is_hostname_byte : ℕ → Bool
is_hostname_byte c =
    (leb b'a' c && leb c b'z')
    || (leb b'A' c && leb c b'Z')
    || (leb b'0' c && leb c b'9')
    || (c == b'-' || c == b'.')

-- The loop over the bytes.
unfoldable pub all_hostname_bytes : Bytes → Bool
all_hostname_bytes [] = true
all_hostname_bytes (c ∷ s) = is_hostname_byte c && all_hostname_bytes s

-- `dns.IsDomainName` of miekg/dns is a parameter.
module _ (is_domain_name : Bytes → Bool) where
  unfoldable pub is_valid_hostname : Bytes → Bool
  is_valid_hostname name =
      if length name == 0 || ltb 253 (length name)
      then false
      else if not (all_hostname_bytes name)
      then false
      else is_domain_name name

  -- One part of a label; `seen` holds the hostnames taken so far, and so does the result.
  unfoldable pub take_part : List Bytes → Bytes → List Bytes
  take_part hostnames part =
      let hostname = trim_space part in
      if same hostname [] || contains hostnames hostname
      then hostnames
      else if not (is_valid_hostname hostname)
      then hostnames
      else hostnames ++ (hostname ∷ [])

  unfoldable pub take_parts : List Bytes → List Bytes → List Bytes
  take_parts hostnames [] = hostnames
  take_parts hostnames (part ∷ parts) = take_parts (take_part hostnames part) parts

  -- The value of one label, if the container has it.
  unfoldable pub take_value : List Bytes → Option Bytes → List Bytes
  take_value hostnames none = hostnames
  take_value hostnames (some value) = take_parts hostnames (split b',' value)

  unfoldable pub take_labels : List Bytes → List Bytes → Map Bytes → List Bytes
  take_labels hostnames [] labels = hostnames
  take_labels hostnames (label_name ∷ names) labels =
      take_labels (take_value hostnames (get labels label_name)) names labels

  unfoldable pub extract_hostnames : List Bytes → Map Bytes → List Bytes
  extract_hostnames names labels = take_labels [] names labels
