-- ===== src/Mr/Shares.antt =====
-- What the reduce tasks of src/mr read, from what the map tasks write.
use spring.Common.{
  same_eq, ℕ, zero, suc, ◌+◌, ◌<◌, ◌%◌, ◌==◌, true, false, List, [], ◌∷◌, ◌++◌, some, Bytes, same,
  if◌then◌else◌, ◌≡◌, refl, sym, ap, ◌∙◌, arith, Bool-cases, inl, inr, subst, get_elem?,
  >>=-eq-some,
}
use spring.Mr.Texts.{all_text, all_text-append, all_text-share}
use mathlib.Core.List.{append_assoc, append-nil, Perm, Permᴰ, perm_append_comm}
use spring.Mr.Worker.{
  KeyValue, ihash, written_from, decode_files, do_map, map_files, Json, decode_file, encode_file,
}
use spring.Mr.Sequential.{accumulate, file_of, files_of, map_phase}
use spring.Mr.Grouping.{share, partition_lem}
use spring.Mr.Lines.{values}
use mathlib.Core.List.Perm

-- All the pairs that the map function gives, in the order of the files.
unfoldable pub pairs_of : (Bytes → Bytes → List KeyValue) → List (Bytes × Bytes) → List KeyValue
pairs_of mapf [] = []
pairs_of mapf ((f, c) ∷ files) = mapf f c ++ pairs_of mapf files

pub accumulate_lem :
    (mapf : Bytes → Bytes → List KeyValue) (files : List (Bytes × Bytes)) (acc : List KeyValue)
    → accumulate mapf files acc ≡ acc ++ pairs_of mapf files
unfolding accumulate pairs_of
accumulate_lem mapf [] acc = sym (append-nil acc)
accumulate_lem mapf ((f, c) ∷ files) acc =
    accumulate_lem mapf files (acc ++ mapf f c) ∙ append_assoc acc (mapf f c) (pairs_of mapf files)

swapped : (xs ys zs : List KeyValue) → Perm (xs ++ (ys ++ zs)) (ys ++ (xs ++ zs))
swapped xs ys zs =
    subst (λ l. Perm l (ys ++ (xs ++ zs))) (append_assoc xs ys zs)
      (subst (λ l. Perm ((xs ++ ys) ++ zs) l) (append_assoc ys xs zs)
        (Perm.append_right zs (perm_append_comm xs ys)))

-- The order of the values of a key is all that the order of the files changes.
pub pairs_of-perm :
    (mapf : Bytes → Bytes → List KeyValue) {xs ys : List (Bytes × Bytes)}
    → Permᴰ xs ys
    → Perm (pairs_of mapf xs) (pairs_of mapf ys)
unfolding pairs_of
pairs_of-perm mapf Permᴰ.nil = Perm.rfl
pairs_of-perm mapf (Permᴰ.cons {a = a} {l₁ = l₁} {l₂ = l₂} e p) =
    subst
      (λ (b : Bytes × Bytes).
        Perm (mapf a.0 a.1 ++ pairs_of mapf l₁) (mapf b.0 b.1 ++ pairs_of mapf l₂))
      e (Perm.append_left (mapf a.0 a.1) (pairs_of-perm mapf p))
pairs_of-perm mapf (Permᴰ.swap {a = a} {b = b} {a' = c} {l = l} e e') =
    subst (λ (b' : Bytes × Bytes). Perm (pairs_of mapf (a ∷ b ∷ l)) (pairs_of mapf (c ∷ b' ∷ l))) e
      (subst (λ (a' : Bytes × Bytes). Perm (pairs_of mapf (a ∷ b ∷ l)) (pairs_of mapf (a' ∷ a ∷ l)))
        e' (swapped (mapf a.0 a.1) (mapf b.0 b.1) (pairs_of mapf l)))
pairs_of-perm mapf (Permᴰ.trans p q) = Perm.trans (pairs_of-perm mapf p) (pairs_of-perm mapf q)

-- A file with a smaller number is not written any more.
file_of-later :
    (json : Json) (i j : ℕ) (ps : List (List KeyValue))
    → i < j
    → file_of i (written_from json j ps) ≡ []
unfolding file_of written_from
file_of-later json i j [] l = refl
file_of-later json i j ([] ∷ ps) l = file_of-later json i (j + 1) ps (omega arith)
file_of-later json i j ((kv ∷ kvs) ∷ ps) l =
    let ne : (j == i) ≡ false = ground arith in
    rw ne (file_of-later json i (j + 1) ps (omega arith))

shift : (j i : ℕ) → j + 1 + i ≡ j + suc i
shift j i = omega arith

share-append :
    (sum32 : Bytes → ℕ) (n i : ℕ) (xs ys : List KeyValue)
    → share sum32 n i (xs ++ ys) ≡ share sum32 n i xs ++ share sum32 n i ys
unfolding share
share-append sum32 n i [] ys = refl
share-append sum32 n i (kv ∷ xs) ys = ground (arith, share-append sum32 n i xs ys)

-- What encoding/json documents: a pair of strings in valid UTF-8 that `Encode` has written is the
-- pair that `Decode` reads.
module _ (json : Json)
    (decode-encode : (kv : KeyValue)
      → json.is_text kv.key ≡ true
      → json.is_text kv.value ≡ true
      → json.decode (json.encode kv) ≡ some kv) where
  decode_file-encode_file :
      (kvs : List KeyValue)
      → all_text json kvs ≡ true
      → decode_file json (encode_file json kvs) ≡ some kvs
  unfolding all_text decode_file encode_file
  decode_file-encode_file [] h = refl
  decode_file-encode_file (kv ∷ kvs) h =
      let key : json.is_text kv.key ≡ true = ground arith in
      let value : json.is_text kv.value ≡ true = ground arith in
      rw (decode-encode kv key value, decode_file-encode_file kvs (ground arith)) refl

  -- A reduce task reads partition `i` of a map task, written or, where it is empty, not.
  file_of-written :
      (j i : ℕ) (ps : List (List KeyValue)) {p : List KeyValue}
      → get_elem? ps i ≡ some p
      → all_text json p ≡ true
      → decode_files json (file_of (j + i) (written_from json j ps)) ≡ some p
  unfolding file_of written_from decode_files
  file_of-written j i [] h text = absurd (cc h)
  file_of-written j zero ([] ∷ ps) {p} h text =
      let e : [] ≡ p = cc h in
      ap (decode_files json) (file_of-later json (j + 0) (j + 1) ps (omega arith)) ∙ ap some e
  file_of-written j zero ((kv ∷ kvs) ∷ ps) {p} h text =
      let e : (kv ∷ kvs) ≡ p = cc h in
      let self : (j == j + 0) ≡ true = ground arith in
      let read = decode_file-encode_file (kv ∷ kvs) (ap (all_text json) e ∙ text) in
      rw (self, file_of-later json (j + 0) (j + 1) ps (omega arith), read)
        (ap some (append-nil (kv ∷ kvs) ∙ e))
  file_of-written j (suc i) ([] ∷ ps) {p} h text =
      subst (λ m. decode_files json (file_of m (written_from json (j + 1) ps)) ≡ some p) (shift j i)
        (file_of-written (j + 1) i ps h text)
  file_of-written j (suc i) ((kv ∷ kvs) ∷ ps) {p} h text =
      let other : (j == j + suc i) ≡ false = ground arith in
      rw other (
        subst (λ m. decode_files json (file_of m (written_from json (j + 1) ps)) ≡ some p)
          (shift j i) (file_of-written (j + 1) i ps h text))

  decode_files-append :
      (fs gs : List (List Bytes)) {xs ys : List KeyValue}
      → decode_files json fs ≡ some xs
      → decode_files json gs ≡ some ys
      → decode_files json (fs ++ gs) ≡ some (xs ++ ys)
  unfolding decode_files
  decode_files-append [] gs {xs} {ys} h h' =
      let empty : [] ≡ xs = cc h in h' ∙ ap (λ l. some (l ++ ys)) empty
  decode_files-append (f ∷ fs) gs {xs} {ys} h h' =
      let (kvs, e, r) = >>=-eq-some (decode_file json f) _ h in
      let (rest, e', r') = >>=-eq-some (decode_files json fs) _ r in
      let whole : kvs ++ rest ≡ xs = cc r' in
      rw (e, decode_files-append fs gs e' h')
        (ap some (sym (append_assoc kvs rest ys)) ∙ ap (λ l. some (l ++ ys)) whole)

  -- A map task of one file, read by reduce task `i`.
  do_map-share :
      (sum32 : Bytes → ℕ) (n : ℕ) (mapf : Bytes → Bytes → List KeyValue) (f c : Bytes)
      → 0 < n
      → all_text json (mapf f c) ≡ true
      → (out : List (ℕ × List Bytes)) × (do_map json sum32 n mapf ((f, c) ∷ []) ≡ some out)
        × ((i : ℕ) → i < n → decode_files json (file_of i out) ≡ some (share sum32 n i (mapf f c)))
  unfolding do_map map_files
  do_map-share sum32 n mapf f c pos_n text =
      let (parts, e, at) = partition_lem sum32 n (mapf f c) pos_n in
      (
        written_from json 0 parts ++ [],
        rw e refl,
        λ i l.
            ap (λ o. decode_files json (file_of i o)) (append-nil (written_from json 0 parts))
            ∙ ap (λ m. decode_files json (file_of m (written_from json 0 parts))) (from_zero i)
            ∙ file_of-written 0 i parts (at i l) (all_text-share json sum32 n i (mapf f c) text),
      )
    where
      from_zero : (i : ℕ) → i ≡ 0 + i
      from_zero i = omega arith

  -- The map tasks do not panic where there is a reduce task, and reduce task `i` reads the pairs of
  -- its share, in the order of the tasks, where they are valid UTF-8.
  pub map_phase_lem :
      (sum32 : Bytes → ℕ) (n : ℕ) (mapf : Bytes → Bytes → List KeyValue)
      (files : List (Bytes × Bytes))
      → 0 < n
      → all_text json (pairs_of mapf files) ≡ true
      → (outs : List (List (ℕ × List Bytes))) × (map_phase json sum32 n mapf files ≡ some outs)
        × ((i : ℕ)
            → i < n
            → decode_files json (files_of i outs) ≡ some (share sum32 n i (pairs_of mapf files)))
  unfolding map_phase files_of pairs_of share decode_files
  map_phase_lem sum32 n mapf [] pos_n text = ([], refl, λ i l. refl)
  map_phase_lem sum32 n mapf ((f, c) ∷ files) pos_n text =
      let both = all_text-append json (mapf f c) (pairs_of mapf files) in
      let (out, e, reads) = do_map-share sum32 n mapf f c pos_n (ground (arith, both)) in
      let (outs, es, rest) = map_phase_lem sum32 n mapf files pos_n (ground (arith, both)) in
      (
        out ∷ outs,
        rw (e, es) refl,
        λ i l.
            decode_files-append (file_of i out) (files_of i outs) (reads i l) (rest i l)
            ∙ ap some (sym (share-append sum32 n i (mapf f c) (pairs_of mapf files))),
      )

-- A share holds all the values of its keys, and none of the others.
pub values-share :
    (sum32 : Bytes → ℕ) (n i : ℕ) (k : Bytes) (kvs : List KeyValue)
    → values k (share sum32 n i kvs) ≡ (if ihash sum32 k % n == i then values k kvs else [])
unfolding values share
values-share sum32 n i k [] = ground arith
values-share sum32 n i k (kv ∷ kvs) = elim (Bool-cases (same kv.key k)) [
  | inl e ↦
      (let h = ap (λ x. ihash sum32 x % n) (same_eq kv.key k e) in
        rw (h) (ground (arith, e, values-share sum32 n i k kvs)))
  | inr e ↦ ground (arith, e, values-share sum32 n i k kvs)
]
