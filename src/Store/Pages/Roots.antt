-- ===== src/Store/Pages/Roots.antt =====
-- The roots that a page of `sync_page` of relay/src/store.rs carries for its sub-handles.
use Prim.Native.Char.{code}
use certrelay.Prelude.{
  ℕ, ◌≤◌, ◌<◌, ◌≡◌, inl, inr, Bool, true, false, ◌==◌, ◌||◌, ◌&&◌, Bool-cases, Option-cases, Option,
  some, [], ◌∷◌, length, String, string_dec_eq, arith, ltb, eqb,
}
use certrelay.Map.{Map, lookup, retain, Distinct}
use certrelay.Map.Laws.{lookup-append, lookup-retain, retain-Distinct}
use certrelay.Map.Sort.{IsSorted, sort_by-IsSorted, sort_by-Distinct}
use certrelay.Store.Types.{Row}
use certrelay.Store.State.{Store}
use certrelay.Store.Update.Sequence.{IsSound}
use certrelay.Store.Pages.{
  seq_number, suffix_from, space_name, is_sub, needed, contains, after_cursor, selected, last_seq,
  roots_beyond, needed_roots, hard_cap, shrunk, page_of, sync_page,
}
use certrelay.Store.Pages.Prefix.{Prefix, Unique, Prefix-lookup, Prefix-back, last_seq_cons}
use certrelay.Store.Pages.Loop.{AtHand, shrink-Prefix, shrink-AtHand}
use certrelay.Store.Pages.Complete.{
  after_cursor-lookup, after_cursor-Unique, start-Loop, after_of, main_of, roots_of, page-Loop,
}

suffix_from_twice : (h t : String) → suffix_from h ≡ some t → suffix_from t ≡ some t
unfolding suffix_from
suffix_from_twice String.[] t e = ground arith
suffix_from_twice (String.◌∷◌ c h) t e = elim (Bool-cases (code c == 0x40 || code c == 0x23)) [
  | inl b ↦ ground (arith, b)
  | inr b ↦ ground (arith, b, suffix_from_twice h t)
]

-- The space of a space is the space itself.
space_name_twice : (h : String) → space_name (space_name h) ≡ space_name h
unfolding space_name
space_name_twice h = elim (Option-cases (suffix_from h)) [
  | inl e ↦ ground (arith, e)
  | inr (t, e) ↦ ground (arith, e, suffix_from_twice h t e)
]

space_name-root : (h : String) → is_sub (space_name h) ≡ false
unfolding is_sub
space_name-root h = ground (arith, space_name_twice h)

needed-root : (m : Map String Row) (g : String) → contains (needed m) g ≡ true → is_sub g ≡ false
unfolding needed contains
needed-root [] g e = ground arith
needed-root ((h, r) ∷ m) g e = ground (arith, needed-root m g, space_name-root h)

needed-lookup :
    (m : Map String Row) (h : String) (r : Row)
    → lookup h m ≡ some r
    → is_sub h ≡ true
    → contains (needed m) (space_name h) ≡ true
unfolding needed contains lookup
needed-lookup [] h r e b = ground arith
needed-lookup ((g, q) ∷ m) h r e b = ground (arith, needed-lookup m h r)

first-lookup :
    (m l : Map String Row) (after : ℕ) (g : String) (r : Row)
    → IsSorted seq_number l
    → Distinct l
    → Unique l
    → Prefix m l
    → lookup g l ≡ some r
    → contains (needed m) g ≡ true
    → r.sync_seq ≤ last_seq after m
    → lookup g m ≡ some r
unfolding needed contains
first-lookup [] l after g r i d u p e w b = ground arith
first-lookup (x ∷ m) l after g r i d u p e w b =
    Prefix-lookup m l x g r i d u p e (rw (last_seq_cons 0 after x m) b)

-- A root past the request is on the first selection, or among the roots beyond it.
start-AtHand :
    (after limit max : ℕ) (s : Store) (g : String) (r : Row)
    → IsSound s
    → lookup g s.handles ≡ some r
    → r.space ≡ g
    → after < r.sync_seq
    → contains (needed (selected after limit max s.handles)) g ≡ true
    → AtHand g r (selected after limit max s.handles) (
        roots_beyond
          (last_seq after (selected after limit max s.handles))
          (needed (selected after limit max s.handles))
          s.handles)
unfolding roots_beyond
start-AtHand after limit max s g r v held root past wanted =
    let main = selected after limit max s.handles in
    let d = v.accounts.distinct in
    let later : String → Row → Bool = λ _ q. ltb after q.sync_seq in
    let kept : String → Row → Bool =
      λ h q. contains (needed main) h && eqb h q.space && ltb (last_seq after main) q.sync_seq in
    elim (Bool-cases (ltb (last_seq after main) r.sync_seq)) [
      | inl b ↦ inr (ground (arith, lookup-retain g kept s.handles d))
      | inr b ↦ inl (
          first-lookup main (after_cursor after s.handles) after g r
            (sort_by-IsSorted seq_number (retain later s.handles))
            (sort_by-Distinct seq_number (retain later s.handles)
              (retain-Distinct later s.handles d))
            (after_cursor-Unique after s.sync_counter s.handles d v.sequenced)
            (start-Loop after 0 limit max [] s.handles d).prefix
            (after_cursor-lookup after s.handles g r d held past) wanted (ground arith))
    ]

-- A sub-handle on a page comes with its root: when a page serves a sub-handle, and the store has the
-- root of its space past the cursor of the request, then the same page serves this root.
pub sync_page_root :
    (cursor : Option ℕ) (limit max : ℕ) (s : Store) (h : String) (q r : Row)
    → IsSound s
    → lookup h (sync_page cursor limit max s).records ≡ some q
    → is_sub h ≡ true
    → lookup (space_name h) s.handles ≡ some r
    → r.space ≡ space_name h
    → after_of cursor < r.sync_seq
    → lookup (space_name h) (sync_page cursor limit max s).records ≡ some r
unfolding sync_page page_of shrunk needed_roots
sync_page_root cursor limit max s h q r v served sub held root past =
    let after = after_of cursor in
    let first = selected after limit max s.handles in
    let main = main_of cursor limit max s in
    let roots = roots_of cursor limit max s in
    let d = v.accounts.distinct in
    let l = page-Loop cursor limit max s d in
    let kept : String → Row → Bool = λ g _. contains (needed main) g in
    let here : lookup h main ≡ some q = ground (
      arith,
      served,
      lookup-append h main (retain kept roots),
      lookup-retain h kept roots l.roots_distinct,
      needed-root main h,
      Option-cases (lookup h main),
      Option-cases (lookup h roots),
    ) in
    let start = start-Loop after (last_seq after first) limit max (needed first) s.handles d in
    let at_first : lookup h first ≡ some q =
      Prefix-back main first h q
        (shrink-Prefix (length first) (hard_cap max) first
          (roots_beyond (last_seq after first) (needed first) s.handles))
        here in
    let end =
      shrink-AtHand (after_cursor after s.handles) s.handles (space_name h) r (length first)
        (hard_cap max) first (roots_beyond (last_seq after first) (needed first) s.handles)
        (space_name-root h) held start
        (start-AtHand after limit max s (space_name h) r v held root past
          (needed-lookup first h q at_first sub)) in
    let wanted = needed-lookup main h q here sub in
    let whole = lookup-append (space_name h) main (retain kept roots) in
    elim (Option-cases (lookup (space_name h) main)) [
      | inr (p, e) ↦ ground (arith, e, whole, held, l.main_stored (space_name h) p e)
      | inl e ↦
          ground
            (arith, e, end, wanted, whole, lookup-retain (space_name h) kept roots l.roots_distinct)
    ]
