-- ===== src/Http/Query.antt =====
-- What `handle_query` of relay/src/http.rs reads of a request: the handles, the hints, and the queries and
-- the handles of the version that it makes of them.
pub mod Groups
pub mod Covers
pub mod Version
mod Tests
use Prim.Native.Char.{Char, code}
use Prim.Native.String.{◌++◌ as str_append}
use certrelay.Prelude.{
  ℕ, Bool, true, false, not, ◌&&◌, ◌||◌, ◌==◌, Option, none, some, List, [], ◌∷◌, ◌++◌, map, filter,
  if◌then◌else◌, eqb, String, string_dec_eq,
}
use certrelay.Map.{Map, lookup, insert}
use certrelay.Store.Types.{Bytes, HandleHintRow}
use certrelay.Store.State.{Store}
use certrelay.Store.Pages.{suffix_from}
use certrelay.Store.Rows.{get_handle_hints}
use certrelay.Peer.Url.{trim}
use certrelay.Handler.{EpochHint}
use certrelay.Handler.Strings.{sort}
use certrelay.Handler.Hints.{find_row}
use certrelay.Handler.Resolve.{Query}
use certrelay.Http.{Digest}

abbrev pub push_char : Char → List String → List String
push_char c [] = String.◌∷◌ c String.[] ∷ []
push_char c (s ∷ ss) = String.◌∷◌ c s ∷ ss

-- `split(',')`, by the code point.
unfoldable pub split : ℕ → String → List String
split sep String.[] = String.[] ∷ []
split sep (String.◌∷◌ c s) =
    let rest = split sep s in if code c == sep then String.[] ∷ rest else push_char c rest

-- `splitn(3, ':')`, when it gives three parts: the two first, and what is left.
unfoldable pub before_sep : ℕ → String → Option (String × String)
before_sep sep String.[] = none
before_sep sep (String.◌∷◌ c s) =
    let rest = before_sep sep s in
    if code c == sep
    then some (String.[], s)
    else elim rest [ none ↦ none | some (a, b) ↦ some (String.◌∷◌ c a, b) ]

abbrev pub is_blank : String → Bool
is_blank String.[] = true
is_blank (String.◌∷◌ c s) = false

-- The handles of `q`.
unfoldable pub requested : String → List String
unfolding split trim
requested q = filter (λ s. not (is_blank s)) (map trim (split 0x2c q))

abbrev pub with_height : String → String → Option ℕ → Map String EpochHint → Map String EpochHint
with_height space root none m = m
with_height space root (some height) m = insert space (record { root = root; height = height }) m

module _ (parse_u32 : String → Option ℕ) where
  abbrev pub with_hint_root :
      String → Option (String × String) → Map String EpochHint → Map String EpochHint
  with_hint_root space none m = m
  with_hint_root space (some (root, height)) m = with_height space root (parse_u32 height) m

  abbrev pub with_space : Option (String × String) → Map String EpochHint → Map String EpochHint
  with_space none m = m
  with_space (some (space, rest)) m = with_hint_root space (before_sep 0x3a rest) m

  unfoldable pub read_hints : List String → Map String EpochHint → Map String EpochHint
  unfolding before_sep
  read_hints [] m = m
  read_hints (part ∷ parts) m = read_hints parts (with_space (before_sep 0x3a part) m)

  unfoldable pub hint_map : Option String → Map String EpochHint
  unfolding read_hints split
  hint_map none = []
  hint_map (some s) = read_hints (split 0x2c s) []

-- The part of a handle in front of its space.
unfoldable pub label_of : String → String
label_of String.[] = String.[]
label_of (String.◌∷◌ c s) =
    let rest = label_of s in
    if code c == 0x40 || code c == 0x23 then String.[] else String.◌∷◌ c rest

-- `entry(space).or_default().push(label)`.
unfoldable pub push_label : String → String → Map String (List String) → Map String (List String)
push_label space label [] = (space, label ∷ []) ∷ []
push_label space label ((p, ls) ∷ m) =
    let rest = push_label space label m in
    if eqb p space then (p, ls ++ (label ∷ [])) ∷ m else (p, ls) ∷ rest

abbrev pub push_handle :
    Option String → String → Map String (List String) → Map String (List String)
push_handle none label m = m
push_handle (some space) label m = push_label space label m

unfoldable pub group : List String → Map String (List String) → Map String (List String)
unfolding push_label label_of suffix_from
group [] m = m
group (h ∷ hs) m = group hs (push_handle (suffix_from h) (label_of h) m)

abbrev pub labels : List String → List String
labels ls = filter (λ l. not (is_blank l)) ls

unfoldable pub queries_of : Map String EpochHint → Map String (List String) → List Query
queries_of hints [] = []
queries_of hints ((space, ls) ∷ m) =
    record { space = space; handles = labels ls; epoch_hint = lookup space hints }
    ∷ queries_of hints m

unfoldable pub covered : Map String (List String) → List String
covered [] = []
covered ((space, ls) ∷ m) = space ∷ (map (λ l. str_append l space) (labels ls) ++ covered m)

-- `dedup`.
unfoldable pub dedup : List String → List String
dedup [] = []
dedup (x ∷ []) = x ∷ []
dedup (x ∷ y ∷ ys) = let rest = dedup (y ∷ ys) in if eqb x y then rest else x ∷ rest

unfoldable pub version_handles : Map String (List String) → List String
unfolding covered sort dedup
version_handles by_space = dedup (sort (covered by_space))

-- "absent"
abbrev pub hash_or_absent : Option HandleHintRow → Bytes
hash_or_absent none = 97 ∷ 98 ∷ 115 ∷ 101 ∷ 110 ∷ 116 ∷ []
hash_or_absent (some row) = row.zone_hash

module _ (d : Digest) where
  unfoldable pub version_bytes : List HandleHintRow → List String → Bytes
  unfolding find_row
  version_bytes rows [] = []
  version_bytes rows (h ∷ hs) =
      d.as_bytes h ++ (0 ∷ (hash_or_absent (find_row h rows) ++ (0xff ∷ version_bytes rows hs)))

  -- The digits stand in quotes.
  unfoldable pub query_etag : Store → List String → String
  unfolding version_bytes get_handle_hints
  query_etag s hs =
      str_append "\""
        (str_append (d.hex_encode (d.sha256 (version_bytes (get_handle_hints hs s) hs))) "\"")

abbrev pub is_weak : Option String → String → Bool
is_weak none etag = false
is_weak (some w) etag = eqb (trim w) etag

-- `strip_prefix("W/")`.
unfoldable pub strip_weak : String → Option String
strip_weak String.[] = none
strip_weak (String.◌∷◌ c String.[]) = none
strip_weak (String.◌∷◌ c (String.◌∷◌ d s)) =
    if code c == 0x57 && code d == 0x2f then some s else none

unfoldable pub any_matches : List String → String → Bool
unfolding strip_weak trim
any_matches [] etag = false
any_matches (t ∷ ts) etag =
    let rest = any_matches ts etag in
    eqb (trim t) etag || is_weak (strip_weak (trim t)) etag || rest

unfoldable pub etag_matches : String → String → Bool
unfolding any_matches split
etag_matches if_none_match etag =
    eqb if_none_match "*" || any_matches (split 0x2c if_none_match) etag
