-- ===== src/Client/Relays.antt =====
-- `RelayPool` of fabric/rust/src/client.rs.
use Prim.Native.Nat.{min, ◌^◌}
use certrelay.Prelude.{
  ℕ, ◌+◌, ◌-◌, Bool, true, false, List, [], ◌∷◌, ◌++◌, map, leb, eqb, if◌then◌else◌, take, String,
  string_dec_eq,
}
use certrelay.Store.Pages.{contains}
use certrelay.Client.{RelayEntry}

abbrev pub fresh : String → RelayEntry
fresh u = record { url = u; failures = 0 }

unfoldable pub new : List String → List RelayEntry
new us = map fresh us

-- The stable `sort_by_key` by failures.
unfoldable pub insert_entry : RelayEntry → List RelayEntry → List RelayEntry
insert_entry x [] = x ∷ []
insert_entry x (y ∷ ys) =
    let rest = insert_entry x ys in if leb x.failures y.failures then x ∷ y ∷ ys else y ∷ rest

unfoldable pub sort_entries : List RelayEntry → List RelayEntry
unfolding insert_entry
sort_entries [] = []
sort_entries (x ∷ xs) = insert_entry x (sort_entries xs)

abbrev pub urls : List RelayEntry → List String
urls es = map (λ e. e.url) es

-- `shuffle` is what the random generator does to the entries.
unfoldable pub shuffled_urls_n :
    (List RelayEntry → List RelayEntry) → ℕ → List RelayEntry → List String × List RelayEntry
unfolding sort_entries
shuffled_urls_n shuffle n es =
    let sorted = sort_entries (shuffle es) in (urls (take n sorted), sorted)

-- `find` and an assignment: the first entry of this URL.
unfoldable pub update_entry : (ℕ → ℕ) → String → List RelayEntry → List RelayEntry
update_entry f u [] = []
update_entry f u (e ∷ es) =
    let rest = update_entry f u es in
    if eqb e.url u then record e { failures = f e.failures } ∷ es else e ∷ rest

-- `saturating_add` on a u32.
unfoldable pub mark_failed : String → List RelayEntry → List RelayEntry
unfolding update_entry
mark_failed u es = update_entry (λ n. min (n + 1) (2 ^ 32 - 1)) u es

unfoldable pub mark_alive : String → List RelayEntry → List RelayEntry
unfolding update_entry
mark_alive u es = update_entry (λ _. 0) u es

-- The URLs that the pool did not have before the call; one that comes twice is added twice.
unfoldable pub refresh_from : List String → List String → List RelayEntry
refresh_from existing [] = []
refresh_from existing (u ∷ us) =
    let rest = refresh_from existing us in if contains existing u then rest else fresh u ∷ rest

unfoldable pub refresh : List String → List RelayEntry → List RelayEntry
unfolding refresh_from
refresh us es = es ++ refresh_from (urls es) us

unfoldable pub is_empty : List RelayEntry → Bool
is_empty [] = true
is_empty (e ∷ es) = false
