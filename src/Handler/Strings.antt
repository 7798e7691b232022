-- ===== src/Handler/Strings.antt =====
-- The order of std on strings, `sort` and the search for two equal neighbours, which `hints` of
-- relay/src/handler.rs uses. std compares the bytes of UTF-8, which is the order of the code points.
use Prim.Native.Char.{Char, code}
use text.Mathlib.TextEquality.{Char-path}
use certrelay.Prelude.{
  ◌≡◌, refl, inl, inr, Bool, true, false, not, ◌&&◌, ◌||◌, Option, none, some, List, [], ◌∷◌, ltb,
  ◌==◌, if◌then◌else◌, eqb, is_some, String, string_dec_eq, arith, Bool-cases,
}
use certrelay.Store.Pages.{contains}

unfoldable pub str_le : String → String → Bool
str_le String.[] t = true
str_le (String.◌∷◌ c s) String.[] = false
str_le (String.◌∷◌ c s) (String.◌∷◌ d t) =
    let rest = str_le s t in ltb (code c) (code d) || code c == code d && rest

unfoldable pub insert_sorted : String → List String → List String
insert_sorted x [] = x ∷ []
insert_sorted x (y ∷ ys) =
    let rest = insert_sorted x ys in if str_le x y then x ∷ y ∷ ys else y ∷ rest

unfoldable pub sort : List String → List String
unfolding insert_sorted
sort [] = []
sort (x ∷ xs) = insert_sorted x (sort xs)

-- `windows(2).find(|w| w[0] == w[1])`.
unfoldable pub first_repeat : List String → Option String
first_repeat [] = none
first_repeat (x ∷ []) = none
first_repeat (x ∷ y ∷ ys) = let rest = first_repeat (y ∷ ys) in if eqb x y then some x else rest

-- No string stands twice in a list.
abbrev pub unique : List String → Bool
unique [] = true
unique (x ∷ xs) = not (contains xs x) && unique xs

str_le-total : (s t : String) → str_le s t ≡ false → str_le t s ≡ true
unfolding str_le
str_le-total String.[] t e = ground arith
str_le-total (String.◌∷◌ c s) String.[] e = refl
str_le-total (String.◌∷◌ c s) (String.◌∷◌ d t) e = ground (arith, str_le-total s t)

str_le_trans : (s t u : String) → str_le s t ≡ true → str_le t u ≡ true → str_le s u ≡ true
unfolding str_le
str_le_trans String.[] t u e f = refl
str_le_trans (String.◌∷◌ c s) String.[] u e f = ground arith
str_le_trans (String.◌∷◌ c s) (String.◌∷◌ d t) String.[] e f = ground arith
str_le_trans (String.◌∷◌ c s) (String.◌∷◌ d t) (String.◌∷◌ x u) e f =
    ground (arith, str_le_trans s t u)

cons_eq : (c d : Char) (s t : String) → c ≡ d → s ≡ t → String.◌∷◌ c s ≡ String.◌∷◌ d t
cons_eq c d s t p q = λ i. String.◌∷◌ (p i) (q i)

str_le-antisym : (s t : String) → str_le s t ≡ true → str_le t s ≡ true → s ≡ t
unfolding str_le
str_le-antisym String.[] String.[] e f = refl
str_le-antisym String.[] (String.◌∷◌ d t) e f = ground arith
str_le-antisym (String.◌∷◌ c s) String.[] e f = ground arith
str_le-antisym (String.◌∷◌ c s) (String.◌∷◌ d t) e f =
    cons_eq c d s t (Char-path c d (ground arith))
      (str_le-antisym s t (ground arith) (ground arith))

-- Every string of the list stands at or behind `x`.
abbrev From : String → List String → Type 0
From x [] = Unit
From x (y ∷ ys) = (str_le x y ≡ true) × From x ys

abbrev IsOrdered : List String → Type 0
IsOrdered [] = Unit
IsOrdered (x ∷ xs) = From x xs × IsOrdered xs

From-mono : (x y : String) (ys : List String) → str_le x y ≡ true → From y ys → From x ys
From-mono x y [] e f = tt
From-mono x y (z ∷ zs) e f = (str_le_trans x y z e f.0, From-mono x y zs e f.1)

From-insert_sorted :
    (x y : String) (ys : List String) → str_le x y ≡ true → From x ys → From x (insert_sorted y ys)
unfolding insert_sorted
From-insert_sorted x y [] e f = (e, tt)
From-insert_sorted x y (z ∷ zs) e f = ground (arith, From-insert_sorted x y zs e f.1)

insert_sorted-IsOrdered :
    (x : String) (xs : List String) → IsOrdered xs → IsOrdered (insert_sorted x xs)
unfolding insert_sorted
insert_sorted-IsOrdered x [] o = (tt, tt)
insert_sorted-IsOrdered x (y ∷ ys) o = elim (Bool-cases (str_le x y)) [
  | inl b ↦ rw b ((b, From-mono x y ys b o.0), o)
  | inr b ↦
      rw b (From-insert_sorted y x ys (str_le-total x y b) o.0, insert_sorted-IsOrdered x ys o.1)
]

sort-IsOrdered : (xs : List String) → IsOrdered (sort xs)
unfolding sort
sort-IsOrdered [] = tt
sort-IsOrdered (x ∷ xs) = insert_sorted-IsOrdered x (sort xs) (sort-IsOrdered xs)

contains-insert_sorted :
    (x h : String) (xs : List String) → contains (insert_sorted x xs) h ≡ (eqb x h || contains xs h)
unfolding insert_sorted contains
contains-insert_sorted x h [] = refl
contains-insert_sorted x h (y ∷ ys) = ground (arith, contains-insert_sorted x h ys)

pub contains-sort : (h : String) (xs : List String) → contains (sort xs) h ≡ contains xs h
unfolding sort contains
contains-sort h [] = refl
contains-sort h (x ∷ xs) = ground (arith, contains-insert_sorted x h (sort xs), contains-sort h xs)

unique-insert_sorted :
    (x : String) (xs : List String)
    → unique (insert_sorted x xs) ≡ (not (contains xs x) && unique xs)
unfolding insert_sorted contains
unique-insert_sorted x [] = refl
unique-insert_sorted x (y ∷ ys) =
    ground (arith, unique-insert_sorted x ys, contains-insert_sorted x y ys)

pub unique-sort : (xs : List String) → unique (sort xs) ≡ unique xs
unfolding sort
unique-sort [] = refl
unique-sort (x ∷ xs) =
    ground (arith, unique-insert_sorted x (sort xs), contains-sort x xs, unique-sort xs)

-- Behind `y`, a string that stands before `y` stands not at all.
contains-behind :
    (x y : String) (ys : List String)
    → str_le x y ≡ true
    → eqb x y ≡ false
    → From y ys
    → contains ys x ≡ false
unfolding contains
contains-behind x y [] e n f = refl
contains-behind x y (z ∷ zs) e n f =
    ground (arith, contains-behind x y zs e n f.1, str_le-antisym x y)

first_repeat-ordered :
    (xs : List String) → IsOrdered xs → is_some (first_repeat xs) ≡ not (unique xs)
unfolding first_repeat contains
first_repeat-ordered [] o = refl
first_repeat-ordered (x ∷ []) o = refl
first_repeat-ordered (x ∷ y ∷ ys) o = elim (Bool-cases (eqb x y)) [
  | inl b ↦ ground (arith, b)
  | inr b ↦
      ground (arith, b, contains-behind x y ys o.0.0 b o.1.0, first_repeat-ordered (y ∷ ys) o.1)
]

-- Sorted neighbours are equal somewhere exactly when a string is repeated.

pub first_repeat-sort : (xs : List String) → is_some (first_repeat (sort xs)) ≡ not (unique xs)
first_repeat-sort xs = rw (← unique-sort xs) (first_repeat-ordered (sort xs) (sort-IsOrdered xs))
