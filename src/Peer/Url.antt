-- ===== src/Peer/Url.antt =====
-- `normalize_url` of relay/src/peer.rs. The parser of the url crate is the parameter `parse`: the
-- serialization (`as_str`) of what it reads, or `none` where it refuses.
use Prim.Native.Char.{Char, code}
use Prim.Native.String.{String}
use certrelay.Prelude.{ℕ, Bool, ◌&&◌, ◌||◌, Option, none, some, ◌==◌, leb, if◌then◌else◌}

-- std: the White_Space code points, which `str::trim` strips.
is_whitespace : ℕ → Bool
is_whitespace c =
    (leb 9 c && leb c 13)
    || c == 32
    || c == 0x85
    || c == 0xa0
    || c == 0x1680
    || (leb 0x2000 c && leb c 0x200a)
    || c == 0x2028
    || c == 0x2029
    || c == 0x202f
    || c == 0x205f
    || c == 0x3000

is_slash : ℕ → Bool
is_slash c = c == 0x2f

-- A character in front of a stripped rest.
push_unless : (ℕ → Bool) → Char → String → String
push_unless p c String.[] = if p (code c) then String.[] else String.◌∷◌ c String.[]
push_unless p c (String.◌∷◌ d s) = String.◌∷◌ c (String.◌∷◌ d s)

-- std: `trim_end_matches` and `trim_start_matches`, by a test on the code point.
unfoldable pub trim_end_matches : (ℕ → Bool) → String → String
unfolding push_unless
trim_end_matches p String.[] = String.[]
trim_end_matches p (String.◌∷◌ c s) = push_unless p c (trim_end_matches p s)

unfoldable pub trim_start_matches : (ℕ → Bool) → String → String
trim_start_matches p String.[] = String.[]
trim_start_matches p (String.◌∷◌ c s) =
    if p (code c) then trim_start_matches p s else String.◌∷◌ c s

unfoldable pub trim : String → String
unfolding is_whitespace trim_end_matches trim_start_matches
trim s = trim_end_matches is_whitespace (trim_start_matches is_whitespace s)

unfoldable pub strip_slashes : String → String
unfolding is_slash trim_end_matches
strip_slashes s = trim_end_matches is_slash s

unfoldable pub normalize_url : (String → Option String) → String → String
unfolding trim strip_slashes
normalize_url parse url = elim (parse (trim url)) [
  | some parsed ↦ strip_slashes parsed
  | none ↦ strip_slashes (trim url)
]
