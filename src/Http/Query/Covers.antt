-- ===== src/Http/Query/Covers.antt =====
-- The queries that `handle_query` of relay/src/http.rs makes of the requested handles.
use Prim.Native.Char.{code}
use Prim.Native.String.{◌++◌ as str_append}
use Prim.Native.String.append
use mathlib.Core.List.{Memᴰ}
use certrelay.Prelude.{
  ◌≡◌, refl, sym, ap, ◌∙◌, ◌⊎◌, inl, inr, true, false, ◌||◌, ◌==◌, none, some, List, [], ◌∷◌, map,
  if◌then◌else◌, eqb, String, string_dec_eq, arith, Bool-cases,
}
use certrelay.Map.{Map, lookup, Distinct}
use certrelay.Store.Pages.{contains, suffix_from}
use certrelay.Handler.{EpochHint}
use certrelay.Handler.Strings.{sort, unique, contains-sort}
use certrelay.Handler.Resolve.{Query}
use certrelay.Handler.Resolve.Complete.{spaces_asked}
use certrelay.Http.Query.{
  is_blank, label_of, group, labels, queries_of, covered, dedup, version_handles,
}
use certrelay.Http.Query.Groups.{
  BySpace, contains-append, contains-labels, Grouped, group_new, group-Distinct,
}

contains-spaces :
    (hints : Map String EpochHint) (p : String) (m : BySpace)
    → lookup p m ≡ none
    → contains (spaces_asked (queries_of hints m)) p ≡ false
unfolding queries_of contains lookup
contains-spaces hints p [] e = refl
contains-spaces hints p ((q, ls) ∷ m) e = ground (arith, e, contains-spaces hints p m)

queries_of-unique :
    (hints : Map String EpochHint) (m : BySpace)
    → Distinct m
    → unique (spaces_asked (queries_of hints m)) ≡ true
unfolding queries_of
queries_of-unique hints [] d = refl
queries_of-unique hints ((q, ls) ∷ m) d =
    ground (arith, contains-spaces hints q m d.0, queries_of-unique hints m d.1)

query_at :
    (hints : Map String EpochHint) (p : String) (ls : List String) (m : BySpace)
    → lookup p m ≡ some ls
    → Memᴰ
        (record { space = p; handles = labels ls; epoch_hint = lookup p hints })
        (queries_of hints m)
unfolding queries_of lookup
query_at hints p ls [] e = ground (arith, e)
query_at hints p ls ((q, xs) ∷ m) e = elim (Bool-cases (eqb q p)) [
  | inr b ↦ Memᴰ.tail (query_at hints p ls m (ground (arith, b, e)))
  | inl b ↦
      let k : q ≡ p = ground (arith, b) in
      let f : xs ≡ ls = ground (arith, b, e) in rw (k, f) (Memᴰ.head refl)
]

contains-dedup : (h : String) (xs : List String) → contains (dedup xs) h ≡ contains xs h
unfolding dedup contains
contains-dedup h [] = refl
contains-dedup h (x ∷ []) = refl
contains-dedup h (x ∷ y ∷ ys) = ground (arith, contains-dedup h (y ∷ ys))

contains-joined :
    (p l : String) (ls : List String)
    → contains ls l ≡ true
    → contains (map (λ x. str_append x p) ls) (str_append l p) ≡ true
unfolding contains
contains-joined p l [] e = ground (arith, e)
contains-joined p l (x ∷ ls) e = elim (Bool-cases (eqb x l)) [
  | inl b ↦ let q : x ≡ l = ground (arith, b) in rw q (ground arith)
  | inr b ↦ ground (arith, b, e, contains-joined p l ls)
]

-- The label and the space together are the handle.
label_space : (h p : String) → suffix_from h ≡ some p → str_append (label_of h) p ≡ h
unfolding suffix_from label_of
label_space String.[] p e = ground (arith, e)
label_space (String.◌∷◌ c s) p e = elim (Bool-cases (code c == 0x40 || code c == 0x23)) [
  | inl b ↦ let q : p ≡ String.◌∷◌ c s = ground (arith, e, b) in rw (b, label_of) (append.nil p ∙ q)
  | inr b ↦
      let r = label_space s p (ground (arith, e, b)) in
      rw (b, label_of) (append.cons c (label_of s) p ∙ ap (λ x. String.◌∷◌ c x) r)
]

blank : (s : String) → is_blank s ≡ true → s ≡ String.[]
blank String.[] e = refl
blank (String.◌∷◌ c s) e = ground (arith, e)

blank-label :
    (h p : String)
    → suffix_from h ≡ some p
    → (if is_blank (label_of h) then p else str_append (label_of h) p) ≡ h
blank-label h p e = elim (Bool-cases (is_blank (label_of h))) [
  | inr b ↦ rw b (label_space h p e)
  | inl b ↦ rw b (
      sym (append.nil p)
      ∙ ap (λ x. str_append x p) (sym (blank (label_of h) b))
      ∙ label_space h p e)
]

covered_at :
    (p l : String) (m : BySpace)
    → Grouped m p l
    → contains (covered m) (if is_blank l then p else str_append l p) ≡ true
unfolding covered contains lookup
covered_at p l [] g = ground (arith, g.here)
covered_at p l ((q, ls) ∷ m) g =
    let h = if is_blank l then p else str_append l p in
    let joined = map (λ x. str_append x q) (labels ls) in
    let parts = contains-append joined (covered m) h in
    elim (Bool-cases (eqb q p)) [
      | inl b ↦
          let k : q ≡ p = ground (arith, b) in
          let f : ls ≡ g.among = ground (arith, b, g.here) in
          elim (Bool-cases (is_blank l)) [
            | inl z ↦ ground (arith, k, z)
            | inr z ↦
                let w : contains (labels ls) l ≡ true =
                  ground (arith, z, f, g.found, contains-labels l ls) in
                ground (arith, k, z, parts, contains-joined q l (labels ls) w)
          ]
      | inr b ↦
          let r : Grouped m p l = record {
            among = g.among;
            here = ground (arith, b, g.here);
            found = g.found;
          } in
          ground (arith, parts, covered_at p l m r)
    ]

-- A requested handle with a space is among the queries, and it is one of the handles of the version.
pub record Asked (hints : Map String EpochHint) (m : BySpace) (h p : String) : Type 0 where
  pub query : Query
  pub among : Memᴰ query (queries_of hints m)
  pub space : query.space ≡ p
  pub handle : (is_blank (label_of h) ≡ true) ⊎ (contains query.handles (label_of h) ≡ true)
  pub versioned : contains (version_handles m) h ≡ true

pub record Covers (hints : Map String EpochHint) (hs : List String) : Type 0 where
  pub once : unique (spaces_asked (queries_of hints (group hs []))) ≡ true
  pub each :
      (h p : String) → contains hs h ≡ true → suffix_from h ≡ some p → Asked hints (group hs []) h p

-- However the handles of a request repeat and mix their spaces, each space gets one query, and each
-- handle with a space is in the query of its space, or names the space itself, and is one of the
-- handles that the version of the answer covers.
pub group-Covers : (hints : Map String EpochHint) (hs : List String) → Covers hints hs
unfolding version_handles
group-Covers hints hs =
    let m = group hs [] in
    record {
      once = queries_of-unique hints m (group-Distinct hs [] tt);
      each = λ h p c e.
          let g = group_new hs h p [] c e in
          record {
            query = record { space = p; handles = labels g.among; epoch_hint = lookup p hints };
            among = query_at hints p g.among m g.here;
            space = refl;
            handle = ground (arith, g.found, contains-labels (label_of h) g.among);
            versioned = ground (
              arith,
              contains-dedup h (sort (covered m)),
              contains-sort h (covered m),
              covered_at p (label_of h) m g,
              blank-label h p e,
            );
          };
    }
