-- ===== src/Cluster/Hostnames/Extracted.antt =====
-- What `extractHostnames` returns: exactly the valid names on offer, each once.
use joyride.Common.{
  ◌≤◌, Bytes, same, same_iff, contains, contains-concat, split, trim_space, Bool, true, false, ◌&&◌,
  ◌||◌, Option, none, some, List, [], ◌∷◌, length, ◌≡◌, ◌↔◌, refl, arith,
}
use joyride.Common.Map.{Map, get}
use joyride.Common.Distinct.{IsDistinct, IsDistinct-concat}
use joyride.Cluster.Hostnames.{
  all_hostname_bytes, is_valid_hostname, take_part, take_parts, take_value, take_labels,
  extract_hostnames,
}

-- A part of the list is, once trimmed, the text.
abbrev pub offered_part : List Bytes → Bytes → Bool
offered_part [] h = false
offered_part (p ∷ ps) h = same (trim_space p) h || offered_part ps h

abbrev pub offered_value : Option Bytes → Bytes → Bool
offered_value none h = false
offered_value (some value) h = offered_part (split b',' value) h

-- Some label with one of the names offers the text between its commas.
abbrev pub offered : List Bytes → Map Bytes → Bytes → Bool
offered [] labels h = false
offered (n ∷ names) labels h = offered_value (get labels n) h || offered names labels h

module _ (is_domain_name : Bytes → Bool) where
  empty_not_valid : is_valid_hostname is_domain_name [] ≡ false
  unfolding is_valid_hostname
  empty_not_valid = refl

  contains-take_part :
      (xs : List Bytes) (p h : Bytes)
      → contains (take_part is_domain_name xs p) h
        ≡ (contains xs h || (same (trim_space p) h && is_valid_hostname is_domain_name h))
  unfolding take_part
  contains-take_part xs p h = ground (
    arith,
    same_iff (trim_space p) h,
    same_iff (trim_space p) [],
    contains-concat xs (trim_space p) h,
    empty_not_valid,
  )

  take_part-IsDistinct :
      (xs : List Bytes) (p : Bytes) → IsDistinct xs → IsDistinct (take_part is_domain_name xs p)
  unfolding take_part
  take_part-IsDistinct xs p d = ground (arith, IsDistinct-concat xs (trim_space p) d)

  contains-take_parts :
      (xs ps : List Bytes) (h : Bytes)
      → contains (take_parts is_domain_name xs ps) h
        ≡ (contains xs h || (offered_part ps h && is_valid_hostname is_domain_name h))
  unfolding take_parts
  contains-take_parts xs [] h = ground arith
  contains-take_parts xs (p ∷ ps) h =
      ground
        (arith, contains-take_parts (take_part is_domain_name xs p) ps h, contains-take_part xs p h)

  contains-take_value :
      (xs : List Bytes) (v : Option Bytes) (h : Bytes)
      → contains (take_value is_domain_name xs v) h
        ≡ (contains xs h || (offered_value v h && is_valid_hostname is_domain_name h))
  unfolding take_value
  contains-take_value xs none h = ground arith
  contains-take_value xs (some value) h = contains-take_parts xs (split b',' value) h

  contains-take_labels :
      (xs names : List Bytes) (labels : Map Bytes) (h : Bytes)
      → contains (take_labels is_domain_name xs names labels) h
        ≡ (contains xs h || (offered names labels h && is_valid_hostname is_domain_name h))
  unfolding take_labels
  contains-take_labels xs [] labels h = ground arith
  contains-take_labels xs (n ∷ names) labels h = ground (
    arith,
    contains-take_labels (take_value is_domain_name xs (get labels n)) names labels h,
    contains-take_value xs (get labels n) h,
  )

  take_parts-IsDistinct :
      (xs ps : List Bytes) → IsDistinct xs → IsDistinct (take_parts is_domain_name xs ps)
  unfolding take_parts
  take_parts-IsDistinct xs [] d = d
  take_parts-IsDistinct xs (p ∷ ps) d =
      take_parts-IsDistinct (take_part is_domain_name xs p) ps (take_part-IsDistinct xs p d)

  take_value-IsDistinct :
      (xs : List Bytes) (v : Option Bytes)
      → IsDistinct xs
      → IsDistinct (take_value is_domain_name xs v)
  unfolding take_value
  take_value-IsDistinct xs none d = d
  take_value-IsDistinct xs (some value) d = take_parts-IsDistinct xs (split b',' value) d

  take_labels-IsDistinct :
      (xs names : List Bytes) (labels : Map Bytes)
      → IsDistinct xs
      → IsDistinct (take_labels is_domain_name xs names labels)
  unfolding take_labels
  take_labels-IsDistinct xs [] labels d = d
  take_labels-IsDistinct xs (n ∷ names) labels d =
      take_labels-IsDistinct (take_value is_domain_name xs (get labels n)) names labels
        (take_value-IsDistinct xs (get labels n) d)

  -- The hostnames of a container are, each once, exactly the valid ones among what the watched
  -- labels of it offer between commas, with the blanks round them cut.
  pub extract_hostnames-exact :
      (names : List Bytes) (labels : Map Bytes)
      → IsDistinct (extract_hostnames is_domain_name names labels)
        × ((h : Bytes)
            → contains (extract_hostnames is_domain_name names labels) h
              ≡ (offered names labels h && is_valid_hostname is_domain_name h))
  unfolding extract_hostnames contains
  extract_hostnames-exact names labels =
      (take_labels-IsDistinct [] names labels tt, λ h. contains-take_labels [] names labels h)

  -- A valid hostname has 1 to 253 bytes, all of them letters, digits, hyphens or dots, and passes
  -- the domain name check of the DNS library; and such a text is a valid hostname.
  is_valid_hostname_iff :
      (name : Bytes)
      → (is_valid_hostname is_domain_name name ≡ true) ↔ (
          (1 ≤ length name)
          × (length name ≤ 253)
          × (all_hostname_bytes name ≡ true)
          × (is_domain_name name ≡ true))
  unfolding is_valid_hostname
  is_valid_hostname_iff name = (λ h. ground arith, λ h. ground arith)
