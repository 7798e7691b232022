-- ===== src/Retention/Sweep/Swept.antt =====
-- What a sweep of relay/src/retention.rs leaves in the store.
use certrelay.Prelude.{
  ℕ, zero, suc, ◌+◌, ◌*◌, ◌≤◌, ◌<◌, dec_lt, ◌≡◌, refl, ◌⊎◌, inl, inr, Bool, ◌==◌, List, [], ◌∷◌,
  String, string_dec_eq, arith, Bool-cases, Option-cases,
}
use certrelay.Store.Types.{Codec}
use certrelay.Store.State.{Store}
use certrelay.Store.Update.Sequence.{IsSound}
use certrelay.Store.Delete.{delete_handles}
use certrelay.Retention.{QueryHeat, RetentionConfig, storage_totals, eviction_candidates}
use certrelay.Retention.Sweep.{
  Usage, victim, choose_batch, is_low, Round, stop, next, follow_round, deleted, evict_from,
  on_victim, batch_round, sweep_from, sweep,
}
use certrelay.Retention.Sweep.Batch.{Swept, Swept-refl, Swept-more, Swept-trans, delete_batch-Swept}

-- What a round leaves, with the rows that were evicted before and after it.
abbrev LeavesFrom : Store → ℕ → ℕ → Store × ℕ → Type 0
LeavesFrom s evicted most (t, k) = (m : ℕ) × (k ≡ evicted + m) × Swept s t m most

abbrev left_by : Round → Store × ℕ
left_by (stop t k) = (t, k)
left_by (next t k exhausted) = (t, k)

module _ (codec : Codec) (ratio_le : Usage → Usage → Bool) (c : RetentionConfig) where
  deleted-LeavesFrom :
      (s : Store) (evicted : ℕ) (exhausted : List String) (d : Store × ℕ)
      → IsSound s
      → Swept s d.0 d.1 c.eviction_batch
      → LeavesFrom s evicted c.eviction_batch
          (left_by (deleted codec ratio_le c evicted exhausted d))
        ⊎ ((d.1 ≡ 0) × (left_by (deleted codec ratio_le c evicted exhausted d) ≡ (d.0, evicted)))
  unfolding deleted
  deleted-LeavesFrom s evicted exhausted (t, n) v w = elim (Bool-cases (n == 0)) [
    | inl b ↦ inr (ground (arith, b), rw b refl)
    | inr b ↦ inl (rw b (n, refl, w))
  ]

  evict_from-LeavesFrom :
      (heat : QueryHeat) (space : String) (s : Store) (evicted : ℕ) (exhausted : List String)
      (all : List String)
      → all ≡ eviction_candidates space (c.eviction_batch * 2) s
      → IsSound s
      → LeavesFrom s evicted c.eviction_batch
          (left_by (evict_from codec ratio_le c heat space evicted exhausted all s))
  unfolding evict_from
  evict_from-LeavesFrom heat space s evicted exhausted [] e v =
      (0, omega arith, Swept-refl s c.eviction_batch v)
  evict_from-LeavesFrom heat space s evicted exhausted (h ∷ hs) e v =
      let b = choose_batch heat c.eviction_batch (h ∷ hs) in
      let d = delete_handles codec b s in
      let w : Swept s d.0 d.1 c.eviction_batch =
        rw (← e) at
          (delete_batch-Swept codec space (c.eviction_batch * 2) heat c.eviction_batch s v) in
      elim (deleted-LeavesFrom s evicted exhausted d v w) [
        | inl x ↦ x
        | inr (z, q) ↦ rw q (d.1, omega (arith, z), w)
      ]

  batch_round-LeavesFrom :
      (heat : QueryHeat) (s : Store) (evicted : ℕ) (exhausted : List String)
      → IsSound s
      → LeavesFrom s evicted c.eviction_batch
          (left_by (batch_round codec ratio_le c heat s evicted exhausted))
  unfolding batch_round on_victim
  batch_round-LeavesFrom heat s evicted exhausted v = elim (Bool-cases (is_low c evicted s)) [
    | inl b ↦ rw (b, batch_round) (0, omega arith, Swept-refl s c.eviction_batch v)
    | inr b ↦ elim (Option-cases (victim ratio_le c exhausted s)) [
      | inl n ↦ rw (b, n, batch_round, on_victim) (0, omega arith, Swept-refl s c.eviction_batch v)
      | inr (space, e) ↦
          rw (b, e, batch_round, on_victim)
            (evict_from-LeavesFrom heat space s evicted exhausted
              (eviction_candidates space (c.eviction_batch * 2) s) refl v)
    ]
  ]

  follow_round-LeavesFrom :
      (r : Round) (f : Store → ℕ → List String → Store × ℕ) (s : Store) (evicted a b : ℕ)
      → LeavesFrom s evicted a (left_by r)
      → ((t : Store) (k : ℕ) (ex : List String) → IsSound t → LeavesFrom t k b (f t k ex))
      → LeavesFrom s evicted (a + b) (follow_round r f)
  unfolding follow_round
  follow_round-LeavesFrom (stop t k) f s evicted a b (m, e, w) g =
      (m, e, Swept-more s t m a (a + b) (omega arith) w)
  follow_round-LeavesFrom (next t k ex) f s evicted a b (m, e, w) g =
      let (j, q, u) = g t k ex w.sound in
      (m + j, omega (arith, e, q), Swept-trans s t (f t k ex).0 m j a b w u)

  sweep_from-LeavesFrom :
      (heat : ℕ → QueryHeat) (n : ℕ) (s : Store) (evicted : ℕ) (exhausted : List String)
      → IsSound s
      → LeavesFrom s evicted
          (n * c.eviction_batch)
          (sweep_from codec ratio_le c heat n s evicted exhausted)
  unfolding sweep_from
  sweep_from-LeavesFrom heat zero s evicted exhausted v = (0, omega arith, Swept-refl s _ v)
  sweep_from-LeavesFrom heat (suc n) s evicted exhausted v = rw (← suc_batches n) (
      follow_round-LeavesFrom (batch_round codec ratio_le c (heat n) s evicted exhausted)
        (λ t k ex. sweep_from codec ratio_le c heat n t k ex) s evicted c.eviction_batch
        (n * c.eviction_batch) (batch_round-LeavesFrom (heat n) s evicted exhausted v)
        (λ t k ex w. sweep_from-LeavesFrom heat n t k ex w))
    where
      suc_batches : (n : ℕ) → c.eviction_batch + n * c.eviction_batch ≡ suc n * c.eviction_batch
      suc_batches n = omega arith

  idle_sweep :
      (heat : ℕ → QueryHeat) (n : ℕ) (s : Store)
      → s.total_bytes ≤ c.max_storage_bytes
      → sweep_from codec ratio_le c heat n s 0 [] ≡ (s, 0)
  unfolding sweep_from batch_round follow_round is_low storage_totals
  idle_sweep heat zero s e = refl
  idle_sweep heat (suc n) s e = ground arith

  -- A sweep keeps the store sound. It deletes as many rows as it returns, which is at most the size of a
  -- batch times the number of batches, it never deletes the root of a space, and it changes no row that
  -- it keeps, nor the write counter and the watermarks. Within the budget it does nothing.
  pub sweep-Swept :
      (heat : ℕ → QueryHeat) (s : Store)
      → IsSound s
      → Swept s
          (sweep codec ratio_le c heat s).0
          (sweep codec ratio_le c heat s).1
          (c.max_batches_per_sweep * c.eviction_batch)
        × ((c.max_storage_bytes < s.total_bytes) ⊎ (sweep codec ratio_le c heat s ≡ (s, 0)))
  unfolding sweep
  sweep-Swept heat s v =
      let (m, e, w) = sweep_from-LeavesFrom heat c.max_batches_per_sweep s 0 [] v in
      let q : m ≡ (sweep codec ratio_le c heat s).1 = omega (arith, e) in
      (
        rw q at w,
        elim (dec_lt c.max_storage_bytes s.total_bytes) [
          | yes b ↦ inl b
          | no b ↦ inr (idle_sweep heat c.max_batches_per_sweep s (omega (arith, b)))
        ],
      )
