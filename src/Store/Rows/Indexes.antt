-- ===== src/Store/Rows/Indexes.antt =====
-- What `set_revs` and `set_addrs` of relay/src/store.rs leave to be read.
use certrelay.Prelude.{
  ℕ, ◌≡◌, ◌∙◌, ap, refl, Bool, not, ◌&&◌, Option, none, some, List, [], ◌∷◌, ◌++◌, map, filter, eqb,
  if◌then◌else◌, String, string_dec_eq, arith,
}
use certrelay.Map.{Map, lookup, insert}
use certrelay.Map.Laws.{lookup-insert}
use certrelay.Store.Types.{AddrRow}
use certrelay.Store.State.{Store}
use certrelay.Store.Rows.{put_revs, addr_row, set_addrs, get_addrs}

-- The last name that a list gives to a number.
unfoldable pub last_rev : String → List (String × String) → Option String → Option String
last_rev id [] o = o
last_rev id ((i, name) ∷ xs) o = last_rev id xs (if eqb i id then some name else o)

abbrev pub name_of : Option (String × ℕ) → Option String
name_of none = none
name_of (some x) = some x.0

-- After `set_revs` a number has the last name that the entries give it, or the name it had.
pub put_revs-last_rev :
    (now : ℕ) (id : String) (xs : List (String × String)) (m : Map String (String × ℕ))
    → name_of (lookup id (put_revs now xs m)) ≡ last_rev id xs (name_of (lookup id m))
unfolding put_revs last_rev
put_revs-last_rev now id [] m = refl
put_revs-last_rev now id ((i, name) ∷ xs) m =
    ground (
      arith,
      put_revs-last_rev now id xs (insert i (name, now) m),
      lookup-insert id i (name, now) m,
    )

-- What a search shows of a row.
abbrev owner_of : AddrRow → String × String
owner_of a = (a.handle, a.rev)

filter-append :
    {A : Type 0} (p : A → Bool) (xs ys : List A) → filter p (xs ++ ys) ≡ filter p xs ++ filter p ys
filter-append p [] ys = refl
filter-append p (x ∷ xs) ys = ground (arith, filter-append p xs ys)

map-append : {A B : Type 0} (f : A → B) (xs ys : List A) → map f (xs ++ ys) ≡ map f xs ++ map f ys
map-append f [] ys = refl
map-append f (x ∷ xs) ys = ground (arith, map-append f xs ys)

old_addrs :
    (name addr handle : String) (xs : List AddrRow)
    → map owner_of (
        filter
          (λ a. eqb a.name name && eqb a.addr addr)
          (filter (λ a. not (eqb a.handle handle)) xs))
      ≡ filter
          (λ p. not (eqb p.0 handle))
          (map owner_of (filter (λ a. eqb a.name name && eqb a.addr addr) xs))
old_addrs name addr handle [] = refl
old_addrs name addr handle (x ∷ xs) = ground (arith, old_addrs name addr handle xs)

new_addrs :
    (name addr : String) (now : ℕ) (handle rev : String) (es : List (String × String))
    → map owner_of
        (filter (λ a. eqb a.name name && eqb a.addr addr) (map (addr_row now handle rev) es))
      ≡ map {B = String × String}
          (λ _. (handle, rev))
          (filter (λ (e : String × String). eqb e.0 name && eqb e.1 addr) es)
new_addrs name addr now handle rev [] = refl
new_addrs name addr now handle rev (e ∷ es) = ground (arith, new_addrs name addr now handle rev es)

-- After the addresses of a handle are set, a search for an address finds the handle by its new entries
-- only, once for each that claims the address and with the new reverse name, and finds the other
-- handles as before.
pub get_addrs-set_addrs :
    (name addr : String) (now : ℕ) (handle rev : String) (es : List (String × String)) (s : Store)
    → get_addrs name addr (set_addrs now handle rev es s)
      ≡ filter (λ p. not (eqb p.0 handle)) (get_addrs name addr s)
        ++ map {B = String × String}
            (λ _. (handle, rev))
            (filter (λ (e : String × String). eqb e.0 name && eqb e.1 addr) es)
unfolding get_addrs set_addrs
get_addrs-set_addrs name addr now handle rev es s =
    let kept = filter (λ a. not (eqb a.handle handle)) s.addrs in
    let rows = map (addr_row now handle rev) es in
    ap (map owner_of) (filter-append (λ a. eqb a.name name && eqb a.addr addr) kept rows)
    ∙ map-append owner_of (filter (λ a. eqb a.name name && eqb a.addr addr) kept)
        (filter (λ a. eqb a.name name && eqb a.addr addr) rows)
    ∙ ground (arith, old_addrs name addr handle s.addrs, new_addrs name addr now handle rev es)
