-- ===== src/Anchors/Sets.antt =====
-- What the anchor sets of fabric/rust/src/anchor.rs hold, and which of them is the latest.
use Prim.Native.Nat.{min}
use mathlib.Core.List.{Memᴰ}
use mathlib.Core.List.Memᴰ
use certrelay.Prelude.{
  ℕ, ◌<◌, ◌≡◌, sym, ap, ◌∙◌, inl, inr, true, false, some, List, [], ◌∷◌, ◌++◌, ltb, length,
  length-append, is_some, arith, Bool-cases,
}
use certrelay.Map.{lookup}
use certrelay.Store.Types.{Bytes}
use certrelay.Store.Update.{bytes_dec_eq}
use certrelay.Anchors.{
  RootAnchor, AnchorSet, anchor_set_size, windows, AnchorSets, get, from_anchors,
}
use certrelay.Anchors.Windows.{
  windows-parts, windows-complete, append_nil, insert_windows-origin, insert_windows-new,
}

-- A stretch of the anchors with as many as a set holds, or all of them when there are fewer.
pub record IsFrame (raw w : List RootAnchor) : Type 0 where
  pub before : List RootAnchor
  pub behind : List RootAnchor
  pub parts : raw ≡ before ++ (w ++ behind)
  pub size : length w ≡ min anchor_set_size (length raw)

whole :
    (pre w post : List RootAnchor) → length w ≡ length (pre ++ (w ++ post)) → w ≡ pre ++ (w ++ post)
whole [] w [] e = append_nil w
whole [] w (y ∷ post) e = absurd (omega (arith, e, length-append w (y ∷ post)))
whole (y ∷ pre) w post e =
    absurd (omega (arith, e, length-append pre (w ++ post), length-append w post))

pub small : (m n : ℕ) → ltb n m ≡ true → n ≡ min m n
small m n b = ground (arith, b)

pub large : (m n : ℕ) → ltb n m ≡ false → m ≡ min m n
large m n b = ground (arith, b)

frame_of_all :
    (raw w : List RootAnchor) → ltb (length raw) anchor_set_size ≡ true → IsFrame raw w → w ≡ raw
frame_of_all raw w b f =
    let q : length w ≡ length raw = f.size ∙ sym (small anchor_set_size (length raw) b) in
    whole f.before w f.behind (q ∙ ap (λ xs. length xs) f.parts) ∙ sym f.parts

module _ (compute_trust_set : List RootAnchor → Bytes) where
  -- Each set is a frame of the anchors under its own root, and each frame's root has a set.
  pub record Holds (raw : List RootAnchor) (sets : AnchorSets) : Type 0 where
    pub frames :
        (id : Bytes) (s : AnchorSet)
        → get id sets ≡ some s
        → IsFrame raw s.entries × (compute_trust_set s.entries ≡ id)
    pub every :
        (w : List RootAnchor)
        → 0 < length raw
        → IsFrame raw w
        → is_some (get (compute_trust_set w) sets) ≡ true

  -- The sets that are made of the relay's anchors are exactly the frames of the anchors, that is the
  -- stretches of 60 anchors, or all the anchors when there are fewer, each under its root.
  pub from_anchors-Holds : (raw : List RootAnchor) → Holds raw (from_anchors compute_trust_set raw)
  unfolding from_anchors get lookup
  from_anchors-Holds [] = record {
    frames = λ id s e. ground (arith, e);
    every = λ w l f. ground (arith, l);
  }
  from_anchors-Holds (a ∷ xs) = elim (Bool-cases (ltb (length (a ∷ xs)) anchor_set_size)) [
    | inl b ↦ record {
      frames = λ id s e.
          elim (insert_windows-origin compute_trust_set ((a ∷ xs) ∷ []) [] id s (rw b at e)) [
            | inl n ↦ ground (arith, n)
            | inr (m, f) ↦
                let q : s.entries ≡ (a ∷ xs) = Memᴰ.eq_of_singleton m in
                (
                  record {
                    before = [];
                    behind = [];
                    parts = rw q (append_nil (a ∷ xs));
                    size = rw q (small anchor_set_size (length (a ∷ xs)) b);
                  },
                  f,
                )
          ];
      every = λ w l f.
          let q = frame_of_all (a ∷ xs) w b f in
          rw b (insert_windows-new compute_trust_set ((a ∷ xs) ∷ []) [] w (Memᴰ.head q));
    }
    | inr b ↦ record {
      frames = λ id s e.
          elim (insert_windows-origin compute_trust_set (windows anchor_set_size (a ∷ xs)) [] id s
            (rw b at e)) [
              | inl n ↦ ground (arith, n)
              | inr (m, f) ↦
                  let (pre, post, p, q) = windows-parts anchor_set_size (a ∷ xs) s.entries m in
                  (
                    record {
                      before = pre;
                      behind = post;
                      parts = p;
                      size = q ∙ large anchor_set_size (length (a ∷ xs)) b;
                    },
                    f,
                  )
            ];
      every = λ w l f.
          let m =
            windows-complete 59 f.before w f.behind
              (f.size ∙ sym (large anchor_set_size (length (a ∷ xs)) b)) in
          rw b (
            insert_windows-new compute_trust_set (windows anchor_set_size (a ∷ xs)) [] w
              (rw (← f.parts) at m));
    }
  ]
