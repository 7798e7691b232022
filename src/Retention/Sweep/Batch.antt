-- ===== src/Retention/Sweep/Batch.antt =====
-- What a batch of a sweep in relay/src/retention.rs leaves in the store.
use certrelay.Prelude.{
  ℕ, zero, suc, ◌+◌, ◌≤◌, ◌≡◌, ◌∙◌, refl, ◌⊎◌, inl, inr, Bool, true, not, some, List, [], ◌∷◌,
  filter, take, length, length-take-le, String, string_dec_eq, arith, Bool-cases, Option-cases,
}
use certrelay.Map.{lookup}
use certrelay.Store.Types.{Row, Codec}
use certrelay.Store.State.{Store, delete_row}
use certrelay.Store.Update.Sequence.{IsSound}
use certrelay.Store.Pages.{contains}
use certrelay.Store.Delete.{delete_rows, delete_handles}
use certrelay.Store.Delete.Effects.{delete_handles-Deleted}
use certrelay.Retention.{QueryHeat, is_hot, eviction_candidates}
use certrelay.Retention.Eviction.{eviction_candidates_lem}
use certrelay.Retention.Sweep.{or_if_empty, choose_batch}

contains-take :
    (n : ℕ) (xs : List String) (h : String) → contains (take n xs) h ≡ true → contains xs h ≡ true
unfolding contains
contains-take zero xs h e = ground arith
contains-take (suc n) [] h e = e
contains-take (suc n) (x ∷ xs) h e = ground (arith, contains-take n xs h)

contains-filter :
    (p : String → Bool) (xs : List String) (h : String)
    → contains (filter p xs) h ≡ true
    → contains xs h ≡ true
unfolding contains
contains-filter p [] h e = e
contains-filter p (x ∷ xs) h e = ground (arith, contains-filter p xs h)

or_if_empty-cases : (xs ys : List String) → (or_if_empty xs ys ≡ xs) ⊎ (or_if_empty xs ys ≡ ys)
or_if_empty-cases [] ys = inr refl
or_if_empty-cases (x ∷ xs) ys = inl refl

-- A batch is taken from the candidates, and it is no longer than the configuration says.
choose_batch-contains :
    (heat : QueryHeat) (n : ℕ) (xs : List String) (h : String)
    → contains (choose_batch heat n xs) h ≡ true
    → contains xs h ≡ true
unfolding choose_batch
choose_batch-contains heat n xs h e =
    let cold = filter (λ g. not (is_hot g heat)) xs in
    elim (or_if_empty-cases (take n cold) (take n xs)) [
      | inl q ↦ contains-filter (λ g. not (is_hot g heat)) xs h (contains-take n cold h (rw q at e))
      | inr q ↦ contains-take n xs h (rw q at e)
    ]

length-choose_batch :
    (heat : QueryHeat) (n : ℕ) (xs : List String) → length (choose_batch heat n xs) ≤ n
unfolding choose_batch
length-choose_batch heat n xs =
    let cold = filter (λ g. not (is_hot g heat)) xs in
    elim (or_if_empty-cases (take n cold) (take n xs)) [
      | inl q ↦ rw q (length-take-le n cold)
      | inr q ↦ rw q (length-take-le n xs)
    ]

delete_rows-count : (hs : List String) (s : Store) → (delete_rows hs s).1 ≤ length hs
unfolding delete_rows
delete_rows-count [] s = omega arith
delete_rows-count (h ∷ hs) s =
    ground (arith, delete_rows-count hs (delete_row h s), Option-cases (lookup h s.handles))

delete_handles-count :
    (c : Codec) (hs : List String) (s : Store) → (delete_handles c hs s).1 ≤ length hs
unfolding delete_handles
delete_handles-count c hs s = delete_rows-count hs _

-- From `s` to `t` at most `most` rows went, `n` in number; no root went, and no row changed.
pub record Swept (s t : Store) (n most : ℕ) : Type 0 where
  pub sound : IsSound t
  pub count : n + length t.handles ≡ length s.handles
  pub same_counter : t.sync_counter ≡ s.sync_counter
  pub same_watermarks : t.sync_watermarks ≡ s.sync_watermarks
  pub kept : (h : String) (r : Row) → lookup h t.handles ≡ some r → lookup h s.handles ≡ some r
  pub roots :
      (h : String) (r : Row)
      → lookup h s.handles ≡ some r
      → r.space ≡ h
      → lookup h t.handles ≡ some r
  pub bound : n ≤ most

pub Swept-refl : (s : Store) (most : ℕ) → IsSound s → Swept s s 0 most
Swept-refl s most v = record {
  sound = v;
  count = omega arith;
  same_counter = refl;
  same_watermarks = refl;
  kept = λ h r e. e;
  roots = λ h r e root. e;
  bound = omega arith;
}

pub Swept-more : (s t : Store) (n a b : ℕ) → a ≤ b → Swept s t n a → Swept s t n b
Swept-more s t n a b l w = record {
  sound = w.sound;
  count = w.count;
  same_counter = w.same_counter;
  same_watermarks = w.same_watermarks;
  kept = w.kept;
  roots = w.roots;
  bound = omega (arith, w.bound);
}

pub Swept-trans :
    (s t u : Store) (n m a b : ℕ) → Swept s t n a → Swept t u m b → Swept s u (n + m) (a + b)
Swept-trans s t u n m a b v w = record {
  sound = w.sound;
  count = omega (arith, v.count, w.count);
  same_counter = w.same_counter ∙ v.same_counter;
  same_watermarks = w.same_watermarks ∙ v.same_watermarks;
  kept = λ h r e. v.kept h r (w.kept h r e);
  roots = λ h r e root. w.roots h r (v.roots h r e root) root;
  bound = omega (arith, v.bound, w.bound);
}

pub delete_batch-Swept :
    (codec : Codec) (space : String) (limit : ℕ) (heat : QueryHeat) (n : ℕ) (s : Store)
    → IsSound s
    → let hs = choose_batch heat n (eviction_candidates space limit s) in
      Swept s (delete_handles codec hs s).0 (delete_handles codec hs s).1 n
delete_batch-Swept codec space limit heat n s v =
    let all = eviction_candidates space limit s in
    let hs = choose_batch heat n all in
    let d = delete_handles-Deleted codec hs s v in
    record {
      sound = d.sound;
      count = d.count;
      same_counter = d.same_counter;
      same_watermarks = d.same_watermarks;
      kept = λ h r e. ground (arith, e, d.rows h);
      roots = λ h r e root. elim (Bool-cases (contains hs h)) [
        | inr b ↦ ground (arith, b, e, d.rows h)
        | inl b ↦
            let (q, f, g, other) =
              eviction_candidates_lem space limit s h v (choose_batch-contains heat n all h b) in
            ground (arith, e, root, f, g, other)
      ];
      bound = omega (arith, delete_handles-count codec hs s, length-choose_batch heat n all);
    }
