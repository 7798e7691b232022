-- ===== src/Store/Pages/Loop.antt =====
-- The loop of `sync_page` of relay/src/store.rs that shrinks a page.
use certrelay.Prelude.{
  ◌||◌, ℕ, zero, suc, ◌≡◌, refl, ◌⊎◌, inl, inr, Bool, true, false, Option-cases, none, some, [],
  ◌∷◌, String, string_dec_eq, arith, ltb, if◌then◌else◌, ite, dec_eq,
}
use certrelay.Map.{Map, lookup, contains_key, Distinct}
use certrelay.Map.Laws.{or_insert-Distinct, lookup-or_insert}
use certrelay.Store.Types.{Row}
use certrelay.Store.Pages.{is_sub, pop, re_home, shrink, page_bytes}
use certrelay.Store.Pages.Prefix.{Prefix, Prefix-trans, Prefix-refl, pop-Prefix}

keeps_if :
    {A : Type 0} (b : Bool) (P : A → Type 0) (x y : A)
    → P x
    → P y
    → P (elim b [ false ↦ x | true ↦ y ])
keeps_if false P x y p q = p
keeps_if true P x y p q = q

-- What each round keeps, the loop keeps.
pub shrink-keeps :
    (P : Map String Row → Map String Row → Type 0) (most : ℕ)
    → ((x y : String × Row) (m roots : Map String Row)
        → P (x ∷ y ∷ m) roots
        → P (pop x (y ∷ m)).0 (re_home (pop x (y ∷ m)).1 roots))
    → (n : ℕ) (m roots : Map String Row) → P m roots
    → P (shrink n most m roots).0 (shrink n most m roots).1
unfolding shrink
shrink-keeps P most f zero m roots p = p
shrink-keeps P most f (suc n) [] roots p = p
shrink-keeps P most f (suc n) (x ∷ []) roots p = p
shrink-keeps P most f (suc n) (x ∷ y ∷ m) roots p =
    keeps_if (ltb most (page_bytes (x ∷ y ∷ m) roots)) (λ u. P u.0 u.1) (x ∷ y ∷ m, roots)
      (shrink n most (pop x (y ∷ m)).0 (re_home (pop x (y ∷ m)).1 roots)) p
      (shrink-keeps P most f n (pop x (y ∷ m)).0 (re_home (pop x (y ∷ m)).1 roots)
        (f x y m roots p))

pub shrink-Prefix : (n most : ℕ) (m roots : Map String Row) → Prefix (shrink n most m roots).0 m
shrink-Prefix n most m roots =
    shrink-keeps (λ k _. Prefix k m) most
      (λ x y k _ q. Prefix-trans (pop x (y ∷ k)).0 (x ∷ y ∷ k) m (pop-Prefix x (y ∷ k)) q) n m roots
      (Prefix-refl m)

-- Every entry is a stored row.
abbrev pub Stored : Map String Row → Map String Row → Type 0
Stored rows m = (h : String) (r : Row) → lookup h m ≡ some r → lookup h rows ≡ some r

pop-split :
    (x : String × Row) (m : Map String Row) (h : String)
    → Distinct (x ∷ m)
    → lookup h (x ∷ m) ≡ (
        if contains_key h (pop x m).0
        then lookup h (pop x m).0
        else ite (dec_eq (pop x m).1.0 h) (some (pop x m).1.1) none)
unfolding lookup pop
pop-split x [] h d = refl
pop-split x (y ∷ m) h d = ground (arith, pop-split y m h d.1)

pop-Distinct : (x : String × Row) (m : Map String Row) → Distinct (x ∷ m) → Distinct (pop x m).0
unfolding lookup pop
pop-Distinct x [] d = tt
pop-Distinct x (y ∷ m) d = (ground (arith, pop-split y m x.0 d.1), pop-Distinct y m d.1)

pop-fresh :
    (x : String × Row) (m : Map String Row)
    → Distinct (x ∷ m)
    → lookup (pop x m).1.0 (pop x m).0 ≡ none
unfolding lookup pop
pop-fresh x [] d = refl
pop-fresh x (y ∷ m) d = ground (arith, pop-fresh y m d.1, pop-split y m x.0 d.1)

lookup-re_home :
    (j : String) (x : String × Row) (roots : Map String Row)
    → lookup j (re_home x roots) ≡ (
        if is_sub x.0 || contains_key j roots
        then lookup j roots
        else ite (dec_eq x.0 j) (some x.1) none)
unfolding re_home
lookup-re_home j x roots = ground (arith, lookup-or_insert j x.0 x.1 roots)

re_home-Distinct :
    (x : String × Row) (roots : Map String Row) → Distinct roots → Distinct (re_home x roots)
unfolding re_home
re_home-Distinct x roots d = ground (arith, or_insert-Distinct x.0 x.1 roots d)

-- The page of the loop starts the rows `l` behind the cursor, and all of it is stored.
pub record Loop (l rows main roots : Map String Row) : Type 0 where
  pub prefix : Prefix main l
  pub main_distinct : Distinct main
  pub main_stored : Stored rows main
  pub roots_distinct : Distinct roots
  pub roots_stored : Stored rows roots

Loop-round :
    (l rows : Map String Row) (x y : String × Row) (m roots : Map String Row)
    → Loop l rows (x ∷ y ∷ m) roots
    → Loop l rows (pop x (y ∷ m)).0 (re_home (pop x (y ∷ m)).1 roots)
Loop-round l rows x y m roots v = record {
  prefix = Prefix-trans (pop x (y ∷ m)).0 (x ∷ y ∷ m) l (pop-Prefix x (y ∷ m)) v.prefix;
  main_distinct = pop-Distinct x (y ∷ m) v.main_distinct;
  main_stored = λ h r e. v.main_stored h r (ground (arith, pop-split x (y ∷ m) h v.main_distinct));
  roots_distinct = re_home-Distinct (pop x (y ∷ m)).1 roots v.roots_distinct;
  roots_stored = λ h r e. ground (
    arith,
    lookup-re_home h (pop x (y ∷ m)).1 roots,
    v.roots_stored h r,
    v.main_stored h r,
    pop-split x (y ∷ m) h v.main_distinct,
    pop-fresh x (y ∷ m) v.main_distinct,
  );
}

pub shrink-Loop :
    (l rows : Map String Row) (n most : ℕ) (main roots : Map String Row)
    → Loop l rows main roots
    → Loop l rows (shrink n most main roots).0 (shrink n most main roots).1
shrink-Loop l rows n most main roots v =
    shrink-keeps (Loop l rows) most (Loop-round l rows) n main roots v

-- A stored root stays at hand.
abbrev pub AtHand : String → Row → Map String Row → Map String Row → Type 0
AtHand g r main roots = (lookup g main ≡ some r) ⊎ (lookup g roots ≡ some r)

AtHand-round :
    (l rows : Map String Row) (g : String) (r : Row) (x y : String × Row) (m roots : Map String Row)
    → is_sub g ≡ false
    → lookup g rows ≡ some r
    → Loop l rows (x ∷ y ∷ m) roots
    → AtHand g r (x ∷ y ∷ m) roots
    → AtHand g r (pop x (y ∷ m)).0 (re_home (pop x (y ∷ m)).1 roots)
AtHand-round l rows g r x y m roots root held v h =
    let split = pop-split x (y ∷ m) g v.main_distinct in
    let home = lookup-re_home g (pop x (y ∷ m)).1 roots in
    elim (Option-cases (lookup g roots)) [
      | inr (q, e) ↦ ground (arith, split, home, v.roots_stored g q e)
      | inl e ↦ ground (arith, split, home)
    ]

pub shrink-AtHand :
    (l rows : Map String Row) (g : String) (r : Row) (n most : ℕ) (main roots : Map String Row)
    → is_sub g ≡ false
    → lookup g rows ≡ some r
    → Loop l rows main roots
    → AtHand g r main roots
    → AtHand g r (shrink n most main roots).0 (shrink n most main roots).1
shrink-AtHand l rows g r n most main roots root held v h =
    (shrink-keeps (λ a b. Loop l rows a b × AtHand g r a b) most
      (λ x y m q w.
        (Loop-round l rows x y m q w.0, AtHand-round l rows g r x y m q root held w.0 w.1))
      n main roots (v, h)).1
