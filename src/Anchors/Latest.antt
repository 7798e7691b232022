-- ===== src/Anchors/Latest.antt =====
-- The latest anchor set of fabric/rust/src/anchor.rs.
use Prim.Native.Nat.{min}
use mathlib.Core.Path.{subst}
use certrelay.Prelude.{
  ℕ, ◌≤◌, ◌≡◌, refl, ap, ◌⊎◌, inl, inr, some, List, [], ◌∷◌, ◌++◌, leb, if◌then◌else◌, length, take,
  All, dec_eq, arith, Bool-cases, Option-cases,
}
use certrelay.Map.{lookup, Distinct}
use certrelay.Store.Types.{Bytes}
use certrelay.Store.Update.{bytes_dec_eq}
use certrelay.Anchors.{
  RootAnchor, AnchorSet, tip_of, tip_height, anchor_set_size, windows, AnchorSets, newest_from,
  latest, get, from_anchors,
}
use certrelay.Anchors.Windows.{insert_windows-Distinct, split_at}
use certrelay.Anchors.Sets.{IsFrame, from_anchors-Holds}

newest_from-best : (s : AnchorSet) (m : AnchorSets) → tip_height s ≤ tip_height (newest_from s m)
unfolding newest_from
newest_from-best s [] = omega arith
newest_from-best s ((id, t) ∷ m) =
    let next = if leb (tip_height s) (tip_height t) then t else s in
    ground (arith, newest_from-best next m)

newest_from-all :
    (s : AnchorSet) (m : AnchorSets) (id : Bytes) (t : AnchorSet)
    → lookup id m ≡ some t
    → tip_height t ≤ tip_height (newest_from s m)
unfolding newest_from lookup
newest_from-all s [] id t e = ground (arith, e)
newest_from-all s ((key, u) ∷ m) id t e =
    let next = if leb (tip_height s) (tip_height u) then u else s in
    elim (dec_eq key id) [
      | yes p ↦ ground (arith, e, p, newest_from-best next m)
      | no p ↦ newest_from-all next m id t (ground (arith, e, p))
    ]

newest_from-kept :
    (s : AnchorSet) (m : AnchorSets)
    → Distinct m
    → (newest_from s m ≡ s) ⊎ ((id : Bytes) × (lookup id m ≡ some (newest_from s m)))
unfolding newest_from lookup
newest_from-kept s [] d = inl refl
newest_from-kept s ((key, u) ∷ m) d =
    let b = leb (tip_height s) (tip_height u) in
    let next = if b then u else s in
    elim (newest_from-kept next m d.1) [
      | inr (id, e) ↦ inr (id, ground (arith, e, d.0))
      | inl e ↦ elim (Bool-cases b) [
        | inl c ↦ inr (key, ground (arith, e, c))
        | inr c ↦ inl (ground (arith, e, c))
      ]
    ]

-- The latest set is kept under a root, and no set has a newer tip.
pub latest-kept :
    (m : AnchorSets) (s : AnchorSet)
    → Distinct m
    → latest m ≡ some s
    → (id : Bytes) × (get id m ≡ some s)
unfolding latest get lookup
latest-kept [] s d e = ground (arith, e)
latest-kept ((key, u) ∷ m) s d e =
    let q : newest_from u m ≡ s = ground (arith, e) in
    elim (newest_from-kept u m d.1) [
      | inl f ↦ (key, ground (arith, q, f))
      | inr (id, f) ↦ (id, ground (arith, q, f, d.0))
    ]

pub latest-all :
    (m : AnchorSets) (id : Bytes) (t : AnchorSet)
    → get id m ≡ some t
    → (s : AnchorSet) × (latest m ≡ some s) × (tip_height t ≤ tip_height s)
unfolding latest get lookup
latest-all [] id t e = ground (arith, e)
latest-all ((key, u) ∷ m) id t e = elim (dec_eq key id) [
  | yes p ↦ (newest_from u m, refl, ground (arith, e, p, newest_from-best u m))
  | no p ↦ (newest_from u m, refl, newest_from-all u m id t (ground (arith, e, p)))
]

-- No anchor is newer than `n`.
abbrev pub AtMost : ℕ → List RootAnchor → Type 0
AtMost n xs = All (λ a. a.height ≤ n) xs

tip-AtMost : (n : ℕ) (pre w post : List RootAnchor) → AtMost n (pre ++ (w ++ post)) → tip_of w ≤ n
tip-AtMost n [] [] post a = omega arith
tip-AtMost n [] (x ∷ w) post a = a.0
tip-AtMost n (y ∷ pre) w post a = tip-AtMost n pre w post a.1

pub from_anchors-Distinct :
    (compute : List RootAnchor → Bytes) (raw : List RootAnchor)
    → Distinct (from_anchors compute raw)
unfolding from_anchors
from_anchors-Distinct compute [] = tt
from_anchors-Distinct compute (a ∷ xs) = ground (
  arith,
  insert_windows-Distinct compute ((a ∷ xs) ∷ []) [] tt,
  insert_windows-Distinct compute (windows anchor_set_size (a ∷ xs)) [] tt,
)

first-IsFrame :
    (a : RootAnchor) (xs : List RootAnchor)
    → (w : List RootAnchor) × IsFrame (a ∷ xs) w × (tip_of w ≡ a.height)
first-IsFrame a xs =
    let n = min 59 (length xs) in
    let (post, p, q) = split_at n xs (ground arith) in
    (
      a ∷ take n xs,
      record { before = []; behind = post; parts = ap (λ ys. a ∷ ys) p; size = ground (arith, q) },
      refl,
    )

-- When no anchor is newer than the first, and a root determines the newest height of its anchors, the
-- latest set has the first anchor's height as its tip.
pub latest_tip :
    (compute : List RootAnchor → Bytes) (a : RootAnchor) (xs : List RootAnchor)
    → AtMost a.height xs
    → ((v w : List RootAnchor) → compute v ≡ compute w → tip_of v ≡ tip_of w)
    → (s : AnchorSet) × (latest (from_anchors compute (a ∷ xs)) ≡ some s)
      × (tip_height s ≡ a.height)
unfolding tip_height
latest_tip compute a xs below same =
    let sets = from_anchors compute (a ∷ xs) in
    let h = from_anchors-Holds compute (a ∷ xs) in
    let (w, f, tip) = first-IsFrame a xs in
    elim (Option-cases (get (compute w) sets)) [
      | inl n ↦ ground (arith, n, h.every w (omega arith) f)
      | inr (t, g) ↦
          let (s, e, l) = latest-all sets (compute w) t g in
          let (id, k) = latest-kept sets s (from_anchors-Distinct compute (a ∷ xs)) e in
          let frame = (h.frames id s k).0 in
          let all : AtMost a.height (a ∷ xs) = (omega arith, below) in
          let bound : tip_of s.entries ≤ a.height =
            tip-AtMost a.height frame.before s.entries frame.behind
              (subst (λ ys. AtMost a.height ys) frame.parts all) in
          (s, e, omega (arith, l, bound, tip, same t.entries w (h.frames (compute w) t g).1))
    ]
