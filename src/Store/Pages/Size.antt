-- ===== src/Store/Pages/Size.antt =====
-- How many bytes a page of `sync_page` of relay/src/store.rs carries.
use certrelay.Prelude.{
  ℕ, zero, suc, ◌+◌, ◌*◌, ◌≤◌, ◌≡◌, refl, ◌⊎◌, inl, inr, Bool-cases, Option, none, [], ◌∷◌, ◌++◌,
  length, String, string_dec_eq, arith, length-append,
}
use certrelay.Map.{Map, lookup, retain, Distinct}
use certrelay.Store.Types.{Row}
use certrelay.Store.State.{Store}
use certrelay.Store.Update.Sequence.{IsSound}
use certrelay.Store.Pages.{
  space_name, is_sub, needed, contains, selected, last_seq, sum_bytes, needed_roots, page_bytes,
  pop, re_home, shrink, roots_beyond, hard_cap, shrunk, page_of, sync_page,
}
use certrelay.Store.Pages.Complete.{after_of, main_of, roots_of, page-Loop}

-- The page fits, or the loop cannot drop a row.
abbrev Fits : ℕ → Map String Row × Map String Row → Type 0
Fits most p = (page_bytes p.0 p.1 ≤ most) ⊎ (length p.0 ≤ 1)

length-pop : (x : String × Row) (m : Map String Row) → length (pop x m).0 ≡ length m
unfolding pop
length-pop x [] = refl
length-pop x (y ∷ m) = ground (arith, length-pop y m)

shrink-Fits :
    (n most : ℕ) (m roots : Map String Row) → length m ≤ suc n → Fits most (shrink n most m roots)
unfolding shrink
shrink-Fits zero most m roots b = inr b
shrink-Fits (suc n) most [] roots b = inr (omega arith)
shrink-Fits (suc n) most (x ∷ []) roots b = inr (omega arith)
shrink-Fits (suc n) most (x ∷ y ∷ m) roots b = ground (
  arith,
  shrink-Fits n most (pop x (y ∷ m)).0 (re_home (pop x (y ∷ m)).1 roots),
  length-pop x (y ∷ m),
)

sum_bytes-append : (m n : Map String Row) → sum_bytes (m ++ n) ≡ sum_bytes m + sum_bytes n
unfolding sum_bytes
sum_bytes-append [] n = omega arith
sum_bytes-append (x ∷ m) n = omega (arith, sum_bytes-append m n)

-- With one space wanted, there is one root at most.
length-retain-absent :
    (g : String) (m : Map String Row)
    → lookup g m ≡ none
    → length (retain (λ h _. contains (g ∷ []) h) m) ≡ 0
unfolding retain lookup contains
length-retain-absent g [] e = refl
length-retain-absent g (x ∷ m) e = ground (arith, length-retain-absent g m)

length-retain-one :
    (g : String) (m : Map String Row)
    → Distinct m
    → length (retain (λ h _. contains (g ∷ []) h) m) ≤ 1
unfolding retain contains
length-retain-one g [] d = omega arith
length-retain-one g (x ∷ m) d = ground (arith, length-retain-one g m d.1, length-retain-absent g m)

length-retain-zero : (m : Map String Row) → length (retain (λ h _. contains [] h) m) ≡ 0
unfolding retain contains
length-retain-zero [] = refl
length-retain-zero (x ∷ m) = length-retain-zero m

length-needed_roots :
    (main roots : Map String Row)
    → length main ≤ 1
    → Distinct roots
    → length (needed_roots main roots) ≤ 1
unfolding needed_roots needed
length-needed_roots [] roots b d = omega (arith, length-retain-zero roots)
length-needed_roots (x ∷ []) roots b d = elim (Bool-cases (is_sub x.0)) [
  | inl e ↦ rw e (length-retain-one (space_name x.0) roots d)
  | inr e ↦ rw e (omega (arith, length-retain-zero roots))
]
length-needed_roots (x ∷ y ∷ m) roots b d = omega arith

-- A page is small: the bytes of all the rows on it, the added roots among them, stay within twice
-- `max_bytes`, or the page has two rows at most.
pub sync_page_size :
    (cursor : Option ℕ) (limit max : ℕ) (s : Store)
    → IsSound s
    → (sum_bytes (sync_page cursor limit max s).records ≤ 2 * max)
      ⊎ (length (sync_page cursor limit max s).records ≤ 2)
unfolding sync_page page_of shrunk page_bytes hard_cap
sync_page_size cursor limit max s v =
    let first = selected (after_of cursor) limit max s.handles in
    let main = main_of cursor limit max s in
    let roots = roots_of cursor limit max s in
    elim (shrink-Fits (length first) (hard_cap max) first
      (roots_beyond (last_seq (after_of cursor) first) (needed first) s.handles) (omega arith)) [
        | inl e ↦ inl (omega (arith, e, sum_bytes-append main (needed_roots main roots)))
        | inr b ↦ inr (
            omega (
              arith,
              length-append main (needed_roots main roots),
              length-needed_roots main roots b
                  (page-Loop cursor limit max s v.accounts.distinct).roots_distinct,
            ))
      ]
