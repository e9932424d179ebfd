-- ===== src/Mr/Tests/Sorts.antt =====
-- Insertion sorts, for the parameters that stand for the package sort.
use spring.Common.{
  same_eq, true, false, List, [], ◌∷◌, Bytes, same, if◌then◌else◌, ◌≡◌, refl, ap, ◌∙◌, arith,
  Bool-cases, inl, inr,
}
use mathlib.Core.Logic.{∥∥₁_elim}
use mathlib.Core.List.{Perm, Permᴰ}
use spring.Mr.Worker.{KeyValue}
use spring.Mr.Sequential.{less_bytes, less, is_sorted}
use spring.Mr.Order.{less_bytes_total}
use native.Mathlib.Nat.{ℕ_set}
use mathlib.Core.List.Perm
use mathlib.Core.List

less_bytes_asym : (a b : Bytes) → less_bytes a b ≡ true → less_bytes b a ≡ false
unfolding less_bytes
less_bytes_asym [] [] h = refl
less_bytes_asym [] (y ∷ ys) h = refl
less_bytes_asym (x ∷ xs) [] h = absurd (cc h)
less_bytes_asym (x ∷ xs) (y ∷ ys) h = ground (arith, less_bytes_asym xs ys)

unfoldable pub insert_pair : KeyValue → List KeyValue → List KeyValue
unfolding less
insert_pair x [] = x ∷ []
insert_pair x (a ∷ l) = let rest = insert_pair x l in if less a x then a ∷ rest else x ∷ a ∷ l

unfoldable pub sort_pairs : List KeyValue → List KeyValue
unfolding insert_pair
sort_pairs [] = []
sort_pairs (a ∷ l) = insert_pair a (sort_pairs l)

insert_pair-IsSorted :
    (x : KeyValue) (l : List KeyValue) → is_sorted l ≡ true → is_sorted (insert_pair x l) ≡ true
unfolding insert_pair is_sorted less
insert_pair-IsSorted x [] h = refl
insert_pair-IsSorted x (a ∷ []) h = ground (arith, less_bytes_asym a.key x.key)
insert_pair-IsSorted x (a ∷ b ∷ l) h =
    ground (arith, less_bytes_asym a.key x.key, insert_pair-IsSorted x (b ∷ l))

pub sort_pairs-IsSorted : (l : List KeyValue) → is_sorted (sort_pairs l) ≡ true
unfolding sort_pairs is_sorted
sort_pairs-IsSorted [] = refl
sort_pairs-IsSorted (a ∷ l) = insert_pair-IsSorted a (sort_pairs l) (sort_pairs-IsSorted l)

insert_pair-perm : (x : KeyValue) (l : List KeyValue) → Perm (insert_pair x l) (x ∷ l)
unfolding insert_pair
insert_pair-perm x [] = Perm.rfl
insert_pair-perm x (a ∷ l) = elim (Bool-cases (less a x)) [
  | inl e ↦ rw e (Perm.trans (Perm.cons a (insert_pair-perm x l)) (Perm.swap x a l))
  | inr e ↦ rw e Perm.rfl
]

pub sort_pairs-perm : (l : List KeyValue) → Perm (sort_pairs l) l
unfolding sort_pairs
sort_pairs-perm [] = Perm.rfl
sort_pairs-perm (a ∷ l) =
    Perm.trans (insert_pair-perm a (sort_pairs l)) (Perm.cons a (sort_pairs-perm l))

unfoldable pub insert_string : Bytes → List Bytes → List Bytes
insert_string x [] = x ∷ []
insert_string x (a ∷ l) =
    let rest = insert_string x l in if less_bytes a x then a ∷ rest else x ∷ a ∷ l

unfoldable pub sort_strings : List Bytes → List Bytes
unfolding insert_string
sort_strings [] = []
sort_strings (a ∷ l) = insert_string a (sort_strings l)

-- Two strings in the wrong order are in the right order the other way round.
ordered :
    (x y : Bytes) (l : List Bytes)
    → (if less_bytes y x then y ∷ x ∷ l else x ∷ y ∷ l)
      ≡ (if less_bytes x y then x ∷ y ∷ l else y ∷ x ∷ l)
ordered x y l = elim (Bool-cases (less_bytes x y)) [
  | inl e ↦ rw (e, less_bytes_asym x y e) refl
  | inr e ↦ elim (Bool-cases (less_bytes y x)) [
    | inl h ↦ rw (e, h) refl
    | inr h ↦ elim (Bool-cases (same x y)) [
      | inl s ↦ (let q = same_eq x y s in rw (e, h) (cc q))
      | inr d ↦ absurd (cc (less_bytes_total x y d e, h))
    ]
  ]
]

less_bytes_below :
    (y a x : Bytes) → less_bytes a y ≡ false → less_bytes a x ≡ true → less_bytes y x ≡ true
unfolding less_bytes
less_bytes_below [] [] [] h g = absurd (cc g)
less_bytes_below [] [] (z ∷ zs) h g = refl
less_bytes_below [] (a ∷ bs) x h g = below_cons x g
  where
    below_cons : (x : Bytes) → less_bytes (a ∷ bs) x ≡ true → less_bytes [] x ≡ true
    below_cons [] g = absurd (cc g)
    below_cons (z ∷ zs) g = refl
less_bytes_below (y ∷ ys) [] x h g = absurd (cc h)
less_bytes_below (y ∷ ys) (a ∷ bs) [] h g = absurd (cc g)
less_bytes_below (y ∷ ys) (a ∷ bs) (z ∷ zs) h g = ground (arith, less_bytes_below ys bs zs)

insert_string_comm :
    (x y : Bytes) (l : List Bytes)
    → insert_string x (insert_string y l) ≡ insert_string y (insert_string x l)
unfolding insert_string
insert_string_comm x y [] = ordered x y []
insert_string_comm x y (a ∷ l) = elim (Bool-cases (less_bytes a x)) [
  | inl p ↦ elim (Bool-cases (less_bytes a y)) [
    | inl q ↦ rw (p, q, p) (ap (λ r. a ∷ r) (insert_string_comm x y l))
    | inr q ↦ rw (p, q, less_bytes_below y a x q p, p) refl
  ]
  | inr p ↦ elim (Bool-cases (less_bytes a y)) [
    | inl q ↦ rw (p, q, less_bytes_below x a y p q, p) refl
    | inr q ↦ rw (p, q, p) (ordered x y (a ∷ l))
  ]
]

sort_strings-permd : {vs ws : List Bytes} → Permᴰ vs ws → sort_strings vs ≡ sort_strings ws
unfolding sort_strings
sort_strings-permd Permᴰ.nil = refl
sort_strings-permd (Permᴰ.cons e p) = rw (e, sort_strings-permd p) refl
sort_strings-permd (Permᴰ.swap {a = a} {b = b} {l = l} e e') =
    insert_string_comm a b (sort_strings l) ∙ (rw (e, e') refl)
sort_strings-permd (Permᴰ.trans p q) = sort_strings-permd p ∙ sort_strings-permd q

strings_set : IsSet (List Bytes)
strings_set = hlevel (List.is_set, ℕ_set)

pub sort_strings-perm : (vs ws : List Bytes) → Perm vs ws → sort_strings vs ≡ sort_strings ws
sort_strings-perm vs ws p =
    ∥∥₁_elim p (strings_set (sort_strings vs) (sort_strings ws)) sort_strings-permd
