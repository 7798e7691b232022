-- ===== src/Http/Reads/Peek.antt =====
-- `handle_peek` of relay/src/http.rs. The walk over a nested name is libveritas's.
use certrelay.Prelude.{
  ℕ, zero, suc, Bool, true, false, ◌&&◌, ◌||◌, Option, none, some, List, [], ◌∷◌, ◌++◌, map, ltb,
  if◌then◌else◌, eqb, length, String, string_dec_eq,
}
use certrelay.Store.Types.{Zone, Codec, HandleRecord, Result, ok, err}
use certrelay.Store.State.{Store}
use certrelay.Store.Rows.{get_handles}
use certrelay.Peer.Url.{trim}
use certrelay.Http.{AppState, Setup, Request, client_ip}
use certrelay.Http.Query.{is_blank, split}

pub data PeekAnswer : Type 0 where
  peek_limited peek_missing_q many_handles deep_name invalid_handle peek_failed : PeekAnswer
  peeked : List Zone → PeekAnswer

unfoldable pub same_names : List String → List String → Bool
same_names [] [] = true
same_names [] (y ∷ ys) = false
same_names (x ∷ xs) [] = false
same_names (x ∷ xs) (y ∷ ys) = let rest = same_names xs ys in eqb x y && rest

abbrev pub is_nil : List String → Bool
is_nil [] = true
is_nil (x ∷ xs) = false

-- libveritas's lookup of a name: its state and the first batch of handles, the next batch by the zones
-- of the last, and the names that the client knows.
pub record NameLookup (N : Type 0) : Type 0 where
  pub start : String → Option (N × List String)
  pub advance : List Zone → N → N × List String
  pub expand_zones : N → List Zone → List Zone

module _ {N : Type 0} (walk : NameLookup N) (codec : Codec) (s : Store) where
  abbrev pub go_on : Result (List HandleRecord) → (List Zone → PeekAnswer) → PeekAnswer
  go_on (err e) f = peek_failed
  go_on (ok zs) f = f (map (λ z. z.zone) zs)

  -- The loop, with the rounds that are left.
  unfoldable pub walk_zones : ℕ → List String → List String → List Zone → N → PeekAnswer
  unfolding same_names get_handles
  walk_zones zero prev batch zones n = peeked (walk.expand_zones n zones)
  walk_zones (suc rounds) prev batch zones n =
      if is_nil batch || same_names batch prev
      then peeked (walk.expand_zones n zones)
      else go_on (get_handles codec batch s) (λ found.
        let (n', batch') = walk.advance found n in
        walk_zones rounds batch batch' (zones ++ found) n')

  abbrev pub peek_from : Option (N × List String) → PeekAnswer
  peek_from none = invalid_handle
  peek_from (some (n, batch)) = walk_zones 3 [] batch [] n

  -- More than one part between commas, and more than one dot.
  unfoldable pub peek : String → PeekAnswer
  unfolding walk_zones split
  peek q =
      if ltb 1 (length (split 0x2c q))
      then many_handles
      else (if ltb 2 (length (split 0x2e q)) then deep_name else peek_from (walk.start q))

  abbrev pub peek_or_missing : Option String → PeekAnswer
  peek_or_missing none = peek_missing_q
  peek_or_missing (some q) = if is_blank (trim q) then peek_missing_q else peek (trim q)

module _ {L C M P N : Type 0} (k : Setup L C M P) (walk : NameLookup N) where
  -- The limiter is asked for every address, the ones of the allow-list too.
  unfoldable pub handle_peek : Request → Option String → AppState L C → AppState L C × PeekAnswer
  unfolding client_ip peek trim
  handle_peek r q s =
      let (allowed, c) = k.check_ip (client_ip k r) s.read_limit in
      (
        record s { read_limit = c },
        if allowed then peek_or_missing walk k.puller.env.codec s.handler.store q else peek_limited,
      )
