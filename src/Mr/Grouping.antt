-- ===== src/Mr/Grouping.antt =====
-- What the partition and the groups of src/mr/worker.go hold.
use spring.Common.{
  same_eq, length-replicate, get_elem?-replicate, ℕ, ◌<◌, ◌%◌, Bool, true, false, not, ◌&&◌, List,
  [], ◌∷◌, ◌++◌, some, ◌≡◌, refl, ap, sym, ◌∙◌, subst, arith, ◌==◌, ==_iff, if◌then◌else◌, length,
  set, get_elem?, replicate, Bytes, same, Bool-cases, inl, inr, get_elem?-set_self,
  get_elem?-set_ne, lt-length, length-set, >>=-eq-some, get_elem?-some,
}
use native.Mathlib.Nat.{mod-lt}
use mathlib.Core.List.{append_assoc, append-nil}
use spring.Mr.Worker.{group, KeyValue, ihash, add_to, partition_into, groups}

-- The pairs of partition `i`, in their order.
unfoldable pub share : (Bytes → ℕ) → ℕ → ℕ → List KeyValue → List KeyValue
share sum32 n i [] = []
share sum32 n i (kv ∷ kvs) =
    let rest = share sum32 n i kvs in if ihash sum32 kv.key % n == i then kv ∷ rest else rest

-- Each partition gets the pairs whose hash is its number, in their order, behind what it held.
partition_into_lem :
    (sum32 : Bytes → ℕ) (n : ℕ) (kvs : List KeyValue) (parts : List (List KeyValue))
    {out : List (List KeyValue)}
    → partition_into sum32 n kvs parts ≡ some out
    → (i : ℕ) {p : List KeyValue} → get_elem? parts i ≡ some p
    → get_elem? out i ≡ some (p ++ share sum32 n i kvs)
unfolding partition_into add_to share
partition_into_lem sum32 n [] parts {out} h i {p} at =
    let e : parts ≡ out = cc h in
    ap (λ l. get_elem? l i) (sym e) ∙ at ∙ ap some (sym (append-nil p))
partition_into_lem sum32 n (kv ∷ kvs) parts h i {p} at =
    let num = ihash sum32 kv.key % n in
    let (mid, e, h') = >>=-eq-some (add_to num kv parts) _ h in
    let (q, a, b) = >>=-eq-some (get_elem? parts num) _ e in
    let r : set parts num (q ++ (kv ∷ [])) ≡ mid = cc b in
    elim (Bool-cases (num == i)) [
      | inl y ↦
          (let z = (==_iff num i).0 y in
            let held : get_elem? parts num ≡ some p = ap (get_elem? parts) z ∙ at in
            let q_p : q ≡ p = cc (a, held) in
            rw y (
              partition_into_lem sum32 n kvs mid h' i (
                ap (get_elem? mid) (sym z)
                ∙ ap (λ l. get_elem? l num) (sym r)
                ∙ get_elem?-set_self parts num (q ++ (kv ∷ [])) (lt-length parts num a)
                ∙ ap (λ (x : List KeyValue). some (x ++ (kv ∷ []))) q_p)
              ∙ ap some (append_assoc p (kv ∷ []) (share sum32 n i kvs))))
      | inr n' ↦ rw n' (
          partition_into_lem sum32 n kvs mid h' i (
            ap (λ l. get_elem? l i) (sym r)
            ∙ get_elem?-set_ne parts num i (q ++ (kv ∷ []))
                (λ z. absurd (cc (n', (==_iff num i).1 z)))
            ∙ at))
    ]

-- The pairs that the groups stand for.
unfoldable pub spread : Bytes → List Bytes → List KeyValue
spread k [] = []
spread k (v ∷ vs) = record { key = k; value = v } ∷ spread k vs

unfoldable pub ungroup : List (Bytes × List Bytes) → List KeyValue
unfolding spread
ungroup [] = []
ungroup ((k, vs) ∷ gs) = spread k vs ++ ungroup gs

spread-append : (k : Bytes) (vs ws : List Bytes) → spread k (vs ++ ws) ≡ spread k vs ++ spread k ws
unfolding spread
spread-append k [] ws = refl
spread-append k (v ∷ vs) ws = ap (λ l. record { key = k; value = v } ∷ l) (spread-append k vs ws)

-- Neighbouring groups have different keys.
unfoldable pub apart : List (Bytes × List Bytes) → Bool
apart [] = true
apart ((k, vs) ∷ []) = true
apart ((k, vs) ∷ (k', vs') ∷ gs) = not (same k' k) && apart ((k', vs') ∷ gs)

ungroup-group :
    (k : Bytes) (vs : List Bytes) (kvs : List KeyValue)
    → ungroup (group k vs kvs) ≡ spread k vs ++ kvs
unfolding ungroup group spread
ungroup-group k vs [] = refl
ungroup-group k vs (kv ∷ kvs) = elim (Bool-cases (same kv.key k)) [
  | inl e ↦
      rw (e, group)
        (ungroup-group k (vs ++ (kv.value ∷ [])) kvs
          ∙ (rw
              (
                spread-append k vs (kv.value ∷ []),
                append_assoc (spread k vs) (spread k (kv.value ∷ [])) kvs,
              )
              (ap (λ (x : Bytes). spread k vs ++ (record { key = x; value = kv.value } ∷ kvs))
                (sym (same_eq kv.key k e)))))
  | inr e ↦ rw (e, group) (ap (λ l. spread k vs ++ l) (ungroup-group kv.key (kv.value ∷ []) kvs))
]

group-head :
    (k : Bytes) (vs : List Bytes) (kvs : List KeyValue)
    → (ws : List Bytes) × (gs : List (Bytes × List Bytes)) × (group k vs kvs ≡ (k, ws) ∷ gs)
unfolding group
group-head k vs [] = (vs, [], refl)
group-head k vs (kv ∷ kvs) = elim (Bool-cases (same kv.key k)) [
  | inl e ↦ rw (e, group) (group-head k (vs ++ (kv.value ∷ [])) kvs)
  | inr e ↦ (vs, group kv.key (kv.value ∷ []) kvs, rw (e, group) refl)
]

apart_cons :
    (k k' : Bytes) (vs ws : List Bytes) (gs : List (Bytes × List Bytes))
    → same k' k ≡ false
    → apart ((k', ws) ∷ gs) ≡ true
    → apart ((k, vs) ∷ (k', ws) ∷ gs) ≡ true
unfolding apart
apart_cons k k' vs ws gs e h = rw e h

apart-group : (k : Bytes) (vs : List Bytes) (kvs : List KeyValue) → apart (group k vs kvs) ≡ true
unfolding group apart
apart-group k vs [] = refl
apart-group k vs (kv ∷ kvs) = elim (Bool-cases (same kv.key k)) [
  | inl e ↦ rw (e, group) (apart-group k (vs ++ (kv.value ∷ [])) kvs)
  | inr e ↦
      (let (ws, gs, h) = group-head kv.key (kv.value ∷ []) kvs in
        let rest = apart-group kv.key (kv.value ∷ []) kvs in
        rw (e, group, h) (apart_cons k kv.key vs ws gs e (subst (λ l. apart l ≡ true) h rest)))
]

-- The groups of `doReduce`, written out pair by pair, are the pairs it has read, in their order,
-- and neighbouring groups have different keys.
pub groups_lem : (kvs : List KeyValue) → (ungroup (groups kvs) ≡ kvs) × (apart (groups kvs) ≡ true)
unfolding groups ungroup apart spread
groups_lem [] = (refl, refl)
groups_lem (kv ∷ kvs) =
    (ungroup-group kv.key (kv.value ∷ []) kvs, apart-group kv.key (kv.value ∷ []) kvs)

partition_into_total :
    (sum32 : Bytes → ℕ) (n : ℕ) (kvs : List KeyValue) (parts : List (List KeyValue))
    → 0 < n
    → length parts ≡ n
    → (out : List (List KeyValue)) × (partition_into sum32 n kvs parts ≡ some out)
unfolding partition_into add_to
partition_into_total sum32 n [] parts pos_n l = (parts, refl)
partition_into_total sum32 n (kv ∷ kvs) parts pos_n l =
    let num = ihash sum32 kv.key % n in
    let bound : num < n = mod-lt (ihash sum32 kv.key) pos_n in
    let (q, a) = get_elem?-some parts num (omega (arith, bound, l)) in
    rw a (
      partition_into_total sum32 n kvs (set parts num (q ++ (kv ∷ []))) pos_n
        (length-set parts num (q ++ (kv ∷ [])) ∙ l))

-- Where there is a reduce task, the loop of `doMap` over the pairs of one file does not panic, and
-- each of the partitions, empty before, holds the pairs whose hash is its number, in their order.
pub partition_lem :
    (sum32 : Bytes → ℕ) (n : ℕ) (kvs : List KeyValue)
    → 0 < n
    → (out : List (List KeyValue)) × (partition_into sum32 n kvs (replicate n []) ≡ some out)
      × ((i : ℕ) → i < n → get_elem? out i ≡ some (share sum32 n i kvs))
partition_lem sum32 n kvs pos_n =
    let (out, e) =
      partition_into_total sum32 n kvs (replicate n []) pos_n (length-replicate n []) in
    (
      out,
      e,
      λ i l. partition_into_lem sum32 n kvs (replicate n []) e i (get_elem?-replicate n [] i l),
    )
