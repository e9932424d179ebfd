-- ===== src/Mr/Index.antt =====
-- What the job of src/mrapps/indexer.go finds.
use spring.Common.{
  same_eq, ℕ, ◌<◌, Bool, true, false, List, [], ◌∷◌, ◌++◌, Bytes, same, length, if◌then◌else◌, ◌==◌,
  ◌≡◌, refl, ap, ◌∙◌, arith, some, Bool-cases, inl, inr, subst, map, ◌&&◌,
}
use mathlib.Core.List.{Perm, Permᴰ}
use spring.Mr.Worker.{KeyValue, Json}
use spring.Mr.Sequential.{is_sorted, distributed}
use spring.Mr.Lines.{values, lines, line, values-append}
use spring.Mr.Texts.{all_text, all_text-append, all_words, all_words-perm}
use spring.Mr.Shares.{pairs_of}
use spring.Mr.Reduced.{length-perm, line-perm, values-perm}
use spring.Mr.Agreement.{distributed_lem, sequential-lines}
use spring.Mr.Applications.{contains, mark_words, document_pairs, indexer_map, indexer_reduce}
use mathlib.Core.List.Perm

-- The names of the files that hold the word `w`, in their order.
unfoldable pub documents : (Bytes → List Bytes) → Bytes → List (Bytes × Bytes) → List Bytes
documents fields w [] = []
documents fields w ((f, c) ∷ files) =
    let rest = documents fields w files in if contains w (fields c) then f ∷ rest else rest

values-absent :
    (d w : Bytes) (m : List Bytes) → contains w m ≡ false → values w (document_pairs d m) ≡ []
unfolding values document_pairs
values-absent d w [] h = refl
values-absent d w (x ∷ xs) h = ground (arith, values-absent d w xs)

-- The pairs of a word, after words have been marked behind those of `m`.
values-mark_words :
    (d w : Bytes) (ws m : List Bytes)
    → values w (document_pairs d (mark_words ws m)) ≡ (
        if contains w m
        then values w (document_pairs d m)
        else if contains w ws
        then d ∷ []
        else [])
unfolding values document_pairs mark_words
values-mark_words d w [] m = elim (Bool-cases (contains w m)) [
  | inl e ↦ rw e refl
  | inr e ↦ rw e (values-absent d w m e)
]
values-mark_words d w (x ∷ xs) m = elim (Bool-cases (same x w)) [
  | inl e ↦
      (let marked : contains x m ≡ contains w m = ap (λ z. contains z m) (same_eq x w e) in
        rw marked (elim (Bool-cases (contains w m)) [
          | inl y ↦ rw (y, values-mark_words d w xs m, y) refl
          | inr n ↦ rw (n, values-mark_words d w xs (x ∷ m), e, values-absent d w m n) refl
        ]))
  | inr e ↦ elim (Bool-cases (contains x m)) [
    | inl y ↦ rw (y, e) (values-mark_words d w xs m)
    | inr n ↦ rw (n, e) (values-mark_words d w xs (x ∷ m) ∙ (rw e refl))
  ]
]

document_pairs-map :
    (d : Bytes) (ws : List Bytes)
    → document_pairs d ws ≡ map (λ w. record { key = w; value = d }) ws
unfolding document_pairs
document_pairs-map d [] = refl
document_pairs-map d (w ∷ ws) =
    ap (λ l. record { key = w; value = d } ∷ l) (document_pairs-map d ws)

module _ (fields : Bytes → List Bytes) (range : List Bytes → List Bytes)
    (range-perm : (m : List Bytes) → Perm (range m) m) where
  -- The pairs of a word in one file, whatever the order of the map's keys is.
  file-perm :
      (w f c : Bytes)
      → Perm
          (values w (indexer_map fields range f c))
          (if contains w (fields c) then f ∷ [] else [])
  unfolding indexer_map
  file-perm w f c =
      let marked = mark_words (fields c) [] in
      let pair : Bytes → KeyValue = λ x. record { key = x; value = f } in
      subst (λ l. Perm (values w (document_pairs f (range marked))) l)
        (values-mark_words f w (fields c) [])
        (values-perm w (
          rw (document_pairs-map f (range marked), document_pairs-map f marked)
            (Perm.map pair (range-perm marked))))

  documents-perm :
      (w : Bytes) (files : List (Bytes × Bytes))
      → Perm (values w (pairs_of (indexer_map fields range) files)) (documents fields w files)
  unfolding pairs_of documents values
  documents-perm w [] = Perm.rfl
  documents-perm w ((f, c) ∷ files) =
      rw
        (
          values-append w (indexer_map fields range f c)
              (pairs_of (indexer_map fields range) files),
          documents-cons (contains w (fields c)) f (documents fields w files),
        )
        (Perm.append (file-perm w f c) (documents-perm w files))
    where
      documents-cons :
          (b : Bool) (f : Bytes) (ds : List Bytes)
          → (if b then f ∷ ds else ds) ≡ (if b then f ∷ [] else []) ++ ds
      documents-cons true f ds = refl
      documents-cons false f ds = refl

pub indexer_any_order :
    (itoa : ℕ → Bytes) (sort_strings : List Bytes → List Bytes) (join : List Bytes → Bytes)
    → ((vs ws : List Bytes) → Perm vs ws → sort_strings vs ≡ sort_strings ws)
    → (k : Bytes) (vs ws : List Bytes) → Perm vs ws
    → indexer_reduce itoa sort_strings join k vs ≡ indexer_reduce itoa sort_strings join k ws
unfolding indexer_reduce
indexer_any_order itoa sort_strings join canonical k vs ws p =
    rw (length-perm p, canonical vs ws p) refl

index_line :
    (itoa : ℕ → Bytes) (sort_strings : List Bytes → List Bytes) (join : List Bytes → Bytes)
    (w : Bytes) (ds : List Bytes)
    → line (indexer_reduce itoa sort_strings join) w ds
      ≡ (if length ds == 0 then [] else (itoa (length ds) ++ (32 ∷ join (sort_strings ds))) ∷ [])
unfolding line indexer_reduce
index_line itoa sort_strings join w [] = refl
index_line itoa sort_strings join w (d ∷ ds) = ground arith

mark_words-text :
    (json : Json) (ws m : List Bytes)
    → all_words json ws ≡ true
    → all_words json m ≡ true
    → all_words json (mark_words ws m) ≡ true
unfolding all_words mark_words
mark_words-text json [] m h h' = h'
mark_words-text json (w ∷ ws) m h h' =
    mark_words-text json ws (if contains w m then m else w ∷ m) (ground arith) (ground arith)

document_pairs-text :
    (json : Json) (d : Bytes) (ws : List Bytes)
    → json.is_text d ≡ true
    → all_words json ws ≡ true
    → all_text json (document_pairs d ws) ≡ true
unfolding all_words all_text document_pairs
document_pairs-text json d [] h h' = refl
document_pairs-text json d (w ∷ ws) h h' = ground (arith, document_pairs-text json d ws h)

-- Whether the names of the files are valid UTF-8.
unfoldable pub names_text : Json → List (Bytes × Bytes) → Bool
names_text json [] = true
names_text json ((f, c) ∷ files) = json.is_text f && names_text json files

pairs_of-text :
    (json : Json) (fields : Bytes → List Bytes) (range : List Bytes → List Bytes)
    → ((m : List Bytes) → Perm (range m) m)
    → ((contents : Bytes) → all_words json (fields contents) ≡ true)
    → (files : List (Bytes × Bytes)) → names_text json files ≡ true
    → all_text json (pairs_of (indexer_map fields range) files) ≡ true
unfolding all_text pairs_of indexer_map names_text all_words
pairs_of-text json fields range range-perm words [] h = refl
pairs_of-text json fields range range-perm words ((f, c) ∷ files) h =
    let marked = mark_words (fields c) [] in
    let ws =
      all_words-perm json (range-perm marked) ∙ mark_words-text json (fields c) [] (words c) refl in
    ground (
      arith,
      all_text-append json (document_pairs f (range marked))
          (pairs_of (indexer_map fields range) files),
      document_pairs-text json f (range marked) (ground arith) ws,
      pairs_of-text json fields range range-perm words files,
    )

-- Over a sort of `ByKey`, a sort of strings whose result does not depend on the order that it is
-- given, maps whose keys come in any order, and an encoding that gives back the pairs of strings in
-- valid UTF-8, to which the words of any contents and the names of the files belong, where there is
-- a reduce task: a job of indexer.go in which each task is committed once ends without a panic or a
-- failure to decode, whatever the hash and the order in which the map tasks commit, and the output
-- has one line for a word of the files, with the number and the sorted names of the files that hold
-- it, each file once, and no line for another word.
pub indexer_lem :
    (sort : List KeyValue → List KeyValue)
    → ((kvs : List KeyValue) → is_sorted (sort kvs) ≡ true)
    → ((kvs : List KeyValue) → Perm (sort kvs) kvs)
    → (sort_strings : List Bytes → List Bytes)
    → ((vs ws : List Bytes) → Perm vs ws → sort_strings vs ≡ sort_strings ws)
    → (range : List Bytes → List Bytes) → ((m : List Bytes) → Perm (range m) m)
    → (json : Json)
    → ((kv : KeyValue)
        → json.is_text kv.key ≡ true
        → json.is_text kv.value ≡ true
        → json.decode (json.encode kv) ≡ some kv)
    → (fields : Bytes → List Bytes) → ((contents : Bytes) → all_words json (fields contents) ≡ true)
    → (sum32 : Bytes → ℕ) (n : ℕ) (itoa : ℕ → Bytes) (join : List Bytes → Bytes)
      (files committed : List (Bytes × Bytes))
    → 0 < n
    → Permᴰ committed files
    → names_text json committed ≡ true
    → (out : List (Bytes × Bytes)) × (distributed json sort sum32 n
          (indexer_map fields range)
          (indexer_reduce itoa sort_strings join)
          committed
        ≡ some out)
      × ((w : Bytes)
          → lines w out ≡ (
              if length (documents fields w files) == 0
              then []
              else (itoa (length (documents fields w files))
                  ++ (32 ∷ join (sort_strings (documents fields w files))))
                ∷ []))
indexer_lem sort sorts perms sort_strings canonical range range-perm json decode-encode fields words
      sum32 n itoa join files committed pos_n p names =
    let mapf = indexer_map fields range in
    let reducef = indexer_reduce itoa sort_strings join in
    let any = indexer_any_order itoa sort_strings join canonical in
    let text = pairs_of-text json fields range range-perm words committed names in
    let (out, e, agrees) =
      distributed_lem sort reducef sorts perms any json decode-encode sum32 n mapf files committed
        pos_n p text in
    (
      out,
      e,
      λ w.
          agrees w
          ∙ sequential-lines sort reducef sorts perms any mapf files w
          ∙ line-perm reducef w (any w) (values w (pairs_of mapf files)) (documents fields w files)
              (documents-perm fields range range-perm w files)
          ∙ index_line itoa sort_strings join w (documents fields w files),
    )
