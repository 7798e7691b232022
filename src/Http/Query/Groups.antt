-- ===== src/Http/Query/Groups.antt =====
-- How `handle_query` of relay/src/http.rs groups the requested handles by their spaces.
use certrelay.Prelude.{
  ◌≡◌, refl, inl, inr, true, false, not, ◌&&◌, ◌||◌, none, some, List, [], ◌∷◌, ◌++◌, eqb, String,
  string_dec_eq, arith, Bool-cases, Option-cases,
}
use certrelay.Map.{Map, lookup, Distinct}
use certrelay.Store.Pages.{contains, suffix_from}
use certrelay.Http.Query.{is_blank, label_of, push_label, push_handle, group, labels}

abbrev pub BySpace : Type 0
BySpace = Map String (List String)

pub contains-append :
    (xs ys : List String) (h : String) → contains (xs ++ ys) h ≡ (contains xs h || contains ys h)
unfolding contains
contains-append [] ys h = refl
contains-append (x ∷ xs) ys h = ground (arith, contains-append xs ys h)

pub contains-labels :
    (l : String) (ls : List String) → contains (labels ls) l ≡ (not (is_blank l) && contains ls l)
unfolding contains
contains-labels l [] = ground arith
contains-labels l (x ∷ ls) = ground (arith, contains-labels l ls)

-- The label stands under the space.
pub record Grouped (m : BySpace) (space label : String) : Type 0 where
  pub among : List String
  pub here : lookup space m ≡ some among
  pub found : contains among label ≡ true

push_label_new :
    (space label : String) (m : BySpace) → Grouped (push_label space label m) space label
unfolding push_label lookup contains
push_label_new space label [] = record {
  among = label ∷ [];
  here = ground arith;
  found = ground arith;
}
push_label_new space label ((p, ls) ∷ m) = elim (Bool-cases (eqb p space)) [
  | inl b ↦ record {
    among = ls ++ (label ∷ []);
    here = ground (arith, b);
    found = ground (arith, contains-append ls (label ∷ []) label);
  }
  | inr b ↦
      let g = push_label_new space label m in
      record { among = g.among; here = ground (arith, b, g.here); found = g.found }
]

push_label_old :
    (space label p l : String) (m : BySpace)
    → Grouped m p l
    → Grouped (push_label space label m) p l
unfolding push_label lookup contains
push_label_old space label p l [] g = ground (arith, g.here)
push_label_old space label p l ((q, ls) ∷ m) g = elim (Bool-cases (eqb q space)) [
  | inl b ↦ elim (Bool-cases (eqb q p)) [
    | inl c ↦ record {
      among = ls ++ (label ∷ []);
      here = ground (arith, b, c);
      found = ground (arith, g.here, g.found, c, contains-append ls (label ∷ []) l);
    }
    | inr c ↦ record { among = g.among; here = ground (arith, b, c, g.here); found = g.found }
  ]
  | inr b ↦ elim (Bool-cases (eqb q p)) [
    | inl c ↦ record { among = g.among; here = ground (arith, b, c, g.here); found = g.found }
    | inr c ↦
        let r =
          push_label_old space label p l m
            (record { among = g.among; here = ground (arith, c, g.here); found = g.found }) in
        record { among = r.among; here = ground (arith, b, c, r.here); found = r.found }
  ]
]

push_label-none :
    (space label p : String) (m : BySpace)
    → eqb p space ≡ false
    → lookup p m ≡ none
    → lookup p (push_label space label m) ≡ none
unfolding push_label lookup
push_label-none space label p [] b e = ground (arith, b)
push_label-none space label p ((q, ls) ∷ m) b e =
    ground (arith, b, e, push_label-none space label p m b)

push_label-Distinct :
    (space label : String) (m : BySpace) → Distinct m → Distinct (push_label space label m)
unfolding push_label lookup
push_label-Distinct space label [] d = (refl, tt)
push_label-Distinct space label ((p, ls) ∷ m) d =
    ground (arith, push_label-none space label p m, push_label-Distinct space label m d.1)

group_old :
    (hs : List String) (p l : String) (m : BySpace) → Grouped m p l → Grouped (group hs m) p l
unfolding group
group_old [] p l m g = g
group_old (h ∷ hs) p l m g = elim (Option-cases (suffix_from h)) [
  | inl n ↦ rw (n, group) (group_old hs p l m g)
  | inr (space, e) ↦
      rw (e, group)
        (group_old hs p l (push_label space (label_of h) m)
          (push_label_old space (label_of h) p l m g))
]

pub group_new :
    (hs : List String) (h p : String) (m : BySpace)
    → contains hs h ≡ true
    → suffix_from h ≡ some p
    → Grouped (group hs m) p (label_of h)
unfolding group contains
group_new [] h p m c e = ground (arith, c)
group_new (x ∷ hs) h p m c e = elim (Bool-cases (eqb x h)) [
  | inr b ↦ group_new hs h p (push_handle (suffix_from x) (label_of x) m) (ground (arith, b, c)) e
  | inl b ↦
      let q : x ≡ h = ground (arith, b) in
      rw (q, e, group)
        (group_old hs p (label_of h) (push_label p (label_of h) m)
          (push_label_new p (label_of h) m))
]

pub group-Distinct : (hs : List String) (m : BySpace) → Distinct m → Distinct (group hs m)
unfolding group
group-Distinct [] m d = d
group-Distinct (h ∷ hs) m d = elim (Option-cases (suffix_from h)) [
  | inl n ↦ rw (n, group) (group-Distinct hs m d)
  | inr (space, e) ↦
      rw (e, group)
        (group-Distinct hs (push_label space (label_of h) m)
          (push_label-Distinct space (label_of h) m d))
]
