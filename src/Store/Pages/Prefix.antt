-- ===== src/Store/Pages/Prefix.antt =====
-- What `sync_page` of relay/src/store.rs selects is a prefix of the rows behind the cursor.
use certrelay.Prelude.{
  ℕ, zero, suc, ◌+◌, ◌≤◌, ◌≡◌, ◌∙◌, refl, some, [], ◌∷◌, take, String, string_dec_eq, arith,
}
use certrelay.Map.{Map, lookup, Distinct}
use certrelay.Map.Sort.{IsSorted, From-lookup}
use certrelay.Store.Types.{Row}
use certrelay.Store.State.{row_bytes}
use certrelay.Store.Pages.{seq_number, take_bytes, last_seq, pop}

abbrev pub Prefix : Map String Row → Map String Row → Type 0
Prefix [] l = Unit
Prefix (x ∷ m) [] = ⊥
Prefix (x ∷ m) (y ∷ l) = (x ≡ y) × Prefix m l

pub Prefix-trans : (l m n : Map String Row) → Prefix l m → Prefix m n → Prefix l n
Prefix-trans [] m n p q = tt
Prefix-trans (x ∷ l) (y ∷ m) (z ∷ n) p q = (p.0 ∙ q.0, Prefix-trans l m n p.1 q.1)
Prefix-trans (x ∷ l) [] n p q = elim p [ ]
Prefix-trans (x ∷ l) (y ∷ m) [] p q = elim q [ ]

pub Prefix-refl : (m : Map String Row) → Prefix m m
Prefix-refl [] = tt
Prefix-refl (x ∷ m) = (refl, Prefix-refl m)

pub take-Prefix : (n : ℕ) (m : Map String Row) → Prefix (take n m) m
take-Prefix zero m = tt
take-Prefix (suc n) [] = tt
take-Prefix (suc n) (x ∷ m) = (refl, take-Prefix n m)

pub take_bytes-Prefix : (max bytes : ℕ) (m : Map String Row) → Prefix (take_bytes max bytes m) m
unfolding take_bytes
take_bytes-Prefix max bytes [] = tt
take_bytes-Prefix max bytes (x ∷ m) =
    ground (arith, take_bytes-Prefix max (bytes + row_bytes x.1) m)

pub pop-Prefix : (x : String × Row) (m : Map String Row) → Prefix (pop x m).0 (x ∷ m)
unfolding pop
pop-Prefix x [] = tt
pop-Prefix x (y ∷ m) = (refl, pop-Prefix y m)

-- Distinct entries have distinct numbers.
abbrev pub Unique : Map String Row → Type 0
Unique m =
    (g h : String) (q r : Row)
    → lookup g m ≡ some q
    → lookup h m ≡ some r
    → q.sync_seq ≡ r.sync_seq
    → g ≡ h

Unique-tail : (x : String × Row) (m : Map String Row) → Distinct (x ∷ m) → Unique (x ∷ m) → Unique m
unfolding lookup
Unique-tail x m d u g h q r a b e = ground (arith, u g h q r)

-- A prefix of sorted rows holds every row up to its last number.
pub Prefix-lookup :
    (m l : Map String Row) (x : String × Row) (h : String) (r : Row)
    → IsSorted seq_number l
    → Distinct l
    → Unique l
    → Prefix (x ∷ m) l
    → lookup h l ≡ some r
    → r.sync_seq ≤ last_seq 0 (x ∷ m)
    → lookup h (x ∷ m) ≡ some r
unfolding lookup last_seq
Prefix-lookup m [] x h r s d u p e b = elim p [ ]
Prefix-lookup [] (y ∷ l) x h r s d u p e b =
    ground (arith, p.0, From-lookup seq_number y.1.sync_seq l h r s.0, u y.0 h y.1 r)
Prefix-lookup (z ∷ m) (y ∷ l) x h r s d u p e b =
    ground (arith, p.0, Prefix-lookup m l z h r s.1 d.1 (Unique-tail y l d u) p.1)

-- A prefix holds nothing else.
pub Prefix-back :
    (m l : Map String Row) (h : String) (r : Row)
    → Prefix m l
    → lookup h m ≡ some r
    → lookup h l ≡ some r
unfolding lookup
Prefix-back [] l h r p e = ground arith
Prefix-back (x ∷ m) [] h r p e = elim p [ ]
Prefix-back (x ∷ m) (y ∷ l) h r p e = ground (arith, p.0, Prefix-back m l h r p.1)

pub last_seq_cons :
    (a b : ℕ) (x : String × Row) (m : Map String Row) → last_seq a (x ∷ m) ≡ last_seq b (x ∷ m)
unfolding last_seq
last_seq_cons a b x [] = refl
last_seq_cons a b x (y ∷ m) = last_seq_cons a b y m
