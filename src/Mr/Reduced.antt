-- ===== src/Mr/Reduced.antt =====
-- What doReduce of src/mr/worker.go writes for a key, over a sort and a reduce function.
use mathlib.Core.Logic.{∥∥₁_elim}
use native.Mathlib.Nat.{ℕ_set}
use spring.Common.{
  same_eq, length, true, false, not, List, [], ◌∷◌, ◌++◌, Bytes, same, if◌then◌else◌, ◌≡◌, refl,
  sym, ap, ◌∙◌, arith, Bool-cases, inl, inr, subst, Bool, Option, some, none,
}
use mathlib.Core.List.{append_assoc, append-nil, Perm, filter_map, Permᴰ}
use spring.Mr.Worker.{KeyValue, group, groups, reduce_groups}
use spring.Mr.Sequential.{less_bytes, less, is_sorted}
use spring.Mr.Order.{less_bytes_irrefl, less_bytes_total, less_bytes_trans}
use spring.Mr.Counted.{and_true}
use spring.Mr.Lines.{values, lines, line}
use mathlib.Core.List.Perm

-- Only the key of the first pair counts.
is_sorted-key :
    (kv : KeyValue) (kvs : List KeyValue)
    → is_sorted (kv ∷ kvs) ≡ is_sorted (record { key = kv.key; value = [] } ∷ kvs)
unfolding is_sorted less
is_sorted-key kv [] = refl
is_sorted-key kv (b ∷ kvs) = refl

is_sorted-cons :
    (a b : KeyValue) (kvs : List KeyValue)
    → is_sorted (a ∷ b ∷ kvs) ≡ true
    → (less_bytes b.key a.key ≡ false) × (is_sorted (b ∷ kvs) ≡ true)
unfolding is_sorted less
is_sorted-cons a b kvs h =
    let (x, y) = and_true (not (less_bytes b.key a.key)) (is_sorted (b ∷ kvs)) h in
    (ground (arith, x), y)

less-same : (a b : Bytes) → less_bytes a b ≡ true → same b a ≡ false
less-same a b h = elim (Bool-cases (same b a)) [
  | inl e ↦ absurd (cc (ap (λ x. less_bytes a x) (same_eq b a e), less_bytes_irrefl a, h))
  | inr e ↦ e
]

-- A key below the first has no value.
values-below :
    (k : Bytes) (kv : KeyValue) (kvs : List KeyValue)
    → less_bytes k kv.key ≡ true
    → is_sorted (kv ∷ kvs) ≡ true
    → values k (kv ∷ kvs) ≡ []
unfolding values
values-below k kv [] l h = rw (less-same k kv.key l) refl
values-below k kv (b ∷ kvs) l h =
    let (x, y) = is_sorted-cons kv b kvs h in
    rw (less-same k kv.key l) (values-below k b kvs (less_bytes_trans k kv.key b.key l x) y)

-- The line of the first key, or those of the others.
line-head :
    (reducef : Bytes → List Bytes → Bytes) (k : Bytes) (kv : KeyValue) (kvs : List KeyValue)
    → (if same kv.key k
        then reducef kv.key (kv.value ∷ values k kvs) ∷ []
        else line reducef k (values k kvs))
      ≡ line reducef k (values k (kv ∷ kvs))
unfolding line values
line-head reducef k kv kvs = elim (Bool-cases (same kv.key k)) [
  | inl e ↦ rw e (ap (λ (z : Bytes). reducef z (kv.value ∷ values k kvs) ∷ []) (same_eq kv.key k e))
  | inr e ↦ rw e refl
]

-- A key before the first of the rest, and not the same as it, has no value in the rest.
values-past :
    (k : Bytes) (kv : KeyValue) (kvs : List KeyValue)
    → same kv.key k ≡ false
    → less_bytes kv.key k ≡ false
    → is_sorted (kv ∷ kvs) ≡ true
    → values k (kv ∷ kvs) ≡ []
values-past k kv kvs d l h = values-below k kv kvs (less_bytes_total kv.key k d l) h

-- The line of a group, over the lines of the rest.
line-over :
    (reducef : Bytes → List Bytes → Bytes) (k k0 : Bytes) (vs : List Bytes) (b : Bool)
    (rest ws : List Bytes)
    → rest ≡ line reducef k ws
    → (b ≡ true → ws ≡ [])
    → (if b then reducef k0 vs ∷ rest else rest)
      ≡ (if b then reducef k0 (vs ++ ws) ∷ [] else line reducef k ws)
unfolding line
line-over reducef k k0 vs true rest ws h e = rw (h, e refl, append-nil vs) refl
line-over reducef k k0 vs false rest ws h e = h

-- The lines of key `k` in the groups from the group of `k0` on.
lines-group :
    (reducef : Bytes → List Bytes → Bytes) (k k0 : Bytes) (v : Bytes) (vs : List Bytes)
    (kvs : List KeyValue)
    → is_sorted (record { key = k0; value = [] } ∷ kvs) ≡ true
    → lines k (reduce_groups reducef (group k0 (v ∷ vs) kvs)) ≡ (
        if same k0 k
        then reducef k0 ((v ∷ vs) ++ values k kvs) ∷ []
        else line reducef k (values k kvs))
unfolding lines reduce_groups group values line
lines-group reducef k k0 v vs [] h = rw (append-nil vs) refl
lines-group reducef k k0 v vs (kv ∷ kvs) h =
    let (x, y) = is_sorted-cons (record { key = k0; value = [] }) kv kvs h in
    let above = sym (is_sorted-key kv kvs) ∙ y in
    elim (Bool-cases (same kv.key k0)) [
      | inl e ↦
          (let keys = same_eq kv.key k0 e in
            let held =
              subst (λ (z : Bytes). is_sorted (record { key = z; value = [] } ∷ kvs) ≡ true) keys
                above in
            let s : same kv.key k ≡ same k0 k = ap (λ (z : Bytes). same z k) keys in
            rw (e, group)
              (lines-group reducef k k0 v (vs ++ (kv.value ∷ [])) kvs held
                ∙ (elim (Bool-cases (same k0 k)) [
                  | inl t ↦ rw (s, t, append_assoc vs (kv.value ∷ []) (values k kvs)) refl
                  | inr f ↦ rw (s, f) refl
                ])))
      | inr e ↦
          rw (e, group)
            (line-over reducef k k0 (v ∷ vs) (same k0 k)
              (lines k (reduce_groups reducef (group kv.key (kv.value ∷ []) kvs)))
              (values k (kv ∷ kvs))
              (lines-group reducef k kv.key kv.value [] kvs above ∙ line-head reducef k kv kvs)
              (λ t.
                let keys = same_eq k0 k t in
                values-past k kv kvs (subst (λ (z : Bytes). same kv.key z ≡ false) keys e)
                  (subst (λ (z : Bytes). less_bytes kv.key z ≡ false) keys x) y))
    ]

-- The lines of key `k` in the groups of a sorted list.
pub lines-groups :
    (reducef : Bytes → List Bytes → Bytes) (k : Bytes) (kvs : List KeyValue)
    → is_sorted kvs ≡ true
    → lines k (reduce_groups reducef (groups kvs)) ≡ line reducef k (values k kvs)
unfolding groups reduce_groups lines line values
lines-groups reducef k [] h = refl
lines-groups reducef k (kv ∷ kvs) h =
    lines-group reducef k kv.key kv.value [] kvs (sym (is_sorted-key kv kvs) ∙ h)
    ∙ line-head reducef k kv kvs

-- The order of the values does not matter to a line when it does not matter to the reduce function.
pub line-perm :
    (reducef : Bytes → List Bytes → Bytes) (k : Bytes)
    → ((vs ws : List Bytes) → Perm vs ws → reducef k vs ≡ reducef k ws)
    → (vs ws : List Bytes) → Perm vs ws
    → line reducef k vs ≡ line reducef k ws
unfolding line
line-perm reducef k any [] [] p = refl
line-perm reducef k any [] (w ∷ ws) p = absurd (cc (Perm.nil-eq p))
line-perm reducef k any (v ∷ vs) [] p = absurd (cc (Perm.eq-nil p))
line-perm reducef k any (v ∷ vs) (w ∷ ws) p = ap (λ x. x ∷ []) (any (v ∷ vs) (w ∷ ws) p)

value_for : Bytes → KeyValue → Option Bytes
value_for k kv = if same kv.key k then some kv.value else none

values-filter_map : (k : Bytes) (kvs : List KeyValue) → values k kvs ≡ filter_map (value_for k) kvs
unfolding values value_for filter_map
values-filter_map k [] = refl
values-filter_map k (kv ∷ kvs) = ground (arith, values-filter_map k kvs)

pub values-perm :
    (k : Bytes) {xs ys : List KeyValue} → Perm xs ys → Perm (values k xs) (values k ys)
values-perm k {xs} {ys} p =
    rw (values-filter_map k xs, values-filter_map k ys) (Perm.filter_map (value_for k) p)

length-permd : {xs ys : List Bytes} → Permᴰ xs ys → length xs ≡ length ys
length-permd Permᴰ.nil = refl
length-permd (Permᴰ.cons e p) = omega (arith, length-permd p)
length-permd (Permᴰ.swap e e') = refl
length-permd (Permᴰ.trans p q) = length-permd p ∙ length-permd q

pub length-perm : {xs ys : List Bytes} → Perm xs ys → length xs ≡ length ys
length-perm {xs} {ys} p = ∥∥₁_elim p (ℕ_set (length xs) (length ys)) length-permd
