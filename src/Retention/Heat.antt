-- ===== src/Retention/Heat.antt =====
-- How long `QueryHeat` of relay/src/retention.rs remembers a handle.
use Prim.Native.Nat.{max}
use certrelay.Prelude.{
  ℕ, suc, ◌+◌, ◌≤◌, ◌<◌, ◌≡◌, ◌⊎◌, inl, inr, refl, true, Bool-cases, List, [], ◌∷◌, leb, length,
  String, string_dec_eq, arith,
}
use certrelay.Store.Pages.{contains}
use certrelay.Retention.{QueryHeat, new, insert_name, touch, touch_all, is_hot}

contains-insert_name :
    (g h : String) (xs : List String) → contains xs g ≡ true → contains (insert_name h xs) g ≡ true
unfolding insert_name contains
contains-insert_name g h xs e = ground arith

insert_name_found : (h : String) (xs : List String) → contains (insert_name h xs) h ≡ true
unfolding insert_name contains
insert_name_found h xs = ground arith

length-insert_name : (h : String) (xs : List String) → length (insert_name h xs) ≤ suc (length xs)
unfolding insert_name
length-insert_name h xs = ground arith

touch_cap : (h : String) (q : QueryHeat) → (touch h q).cap ≡ q.cap
unfolding touch
touch_cap h q = ground arith

touch_found : (h : String) (q : QueryHeat) → contains (touch h q).active h ≡ true
unfolding touch contains
touch_found h q = ground (arith, insert_name_found h q.active)

-- Below the cap, a query adds one name at most.
touch_below :
    (h g : String) (q : QueryHeat)
    → length q.active < q.cap
    → ((touch h q).prev ≡ q.prev) × (length (touch h q).active ≤ suc (length q.active))
unfolding touch
touch_below h g q b = ground (arith, length-insert_name h q.active)

-- A name of the active generation stays there, or the generations were swapped.
touch-cases :
    (h : String) (q : QueryHeat) (g : String)
    → contains q.active g ≡ true
    → (contains (touch h q).active g ≡ true)
      ⊎ ((contains (touch h q).prev g ≡ true) × (length (touch h q).active ≡ 1))
unfolding touch
touch-cases h q g e = elim (Bool-cases (leb q.cap (length q.active))) [
  | inl b ↦ inr (ground (arith, b))
  | inr b ↦ inl (ground (arith, b, contains-insert_name g h q.active e))
]

abbrev IsBounded : ℕ → QueryHeat → Type 0
IsBounded n q = (1 ≤ n) × (q.cap ≡ n) × (length q.active ≤ n) × (length q.prev ≤ n)

touch-IsBounded : (n : ℕ) (h : String) (q : QueryHeat) → IsBounded n q → IsBounded n (touch h q)
unfolding touch
touch-IsBounded n h q b = ground (arith, length-insert_name h q.active)

touch_all-IsBounded :
    (n : ℕ) (hs : List String) (q : QueryHeat) → IsBounded n q → IsBounded n (touch_all hs q)
unfolding touch_all
touch_all-IsBounded n [] q b = b
touch_all-IsBounded n (h ∷ hs) q b = touch_all-IsBounded n hs (touch h q) (touch-IsBounded n h q b)

prev-is_hot :
    (hs : List String) (g : String) (q : QueryHeat)
    → contains q.prev g ≡ true
    → length q.active + length hs ≤ q.cap
    → is_hot g (touch_all hs q) ≡ true
unfolding touch_all is_hot
prev-is_hot [] g q e b = ground arith
prev-is_hot (h ∷ hs) g q e b =
    let kept = touch_below h g q (omega (arith, b)) in
    prev-is_hot hs g (touch h q) (rw kept.0 e) (ground (arith, touch_cap h q, kept.1, b))

active-is_hot :
    (hs : List String) (g : String) (q : QueryHeat)
    → contains q.active g ≡ true
    → length hs ≤ q.cap
    → is_hot g (touch_all hs q) ≡ true
unfolding touch_all is_hot
active-is_hot [] g q e b = ground arith
active-is_hot (h ∷ hs) g q e b = elim (touch-cases h q g e) [
  | inl k ↦ active-is_hot hs g (touch h q) k (ground (arith, touch_cap h q))
  | inr (k, n) ↦ prev-is_hot hs g (touch h q) k (ground (arith, touch_cap h q, n))
]

-- A queried handle stays hot through the next `cap` queries, whichever they are.
pub touch-is_hot :
    (g : String) (hs : List String) (q : QueryHeat)
    → length hs ≤ q.cap
    → is_hot g (touch_all hs (touch g q)) ≡ true
touch-is_hot g hs q b =
    active-is_hot hs g (touch g q) (touch_found g q) (ground (arith, touch_cap g q))

-- From an empty start, both generations stay within `cap` names, whatever is queried.
pub touch_all_bounded :
    (hs : List String) (n : ℕ)
    → (length (touch_all hs (new n)).active ≤ (new n).cap)
      × (length (touch_all hs (new n)).prev ≤ (new n).cap)
unfolding new
touch_all_bounded hs n =
    let b =
      touch_all-IsBounded (max n 1) hs (new n) (omega arith, refl, omega arith, omega arith) in
    (b.2, b.3)
