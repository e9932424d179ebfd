-- ===== src/Mr/Counts.antt =====
-- What the jobs of src/mrapps/wc.go and src/mrapps/indexer.go find.
use spring.Common.{
  ℕ, suc, ◌+◌, ◌<◌, true, List, [], ◌∷◌, Bytes, same, length, length-append, if◌then◌else◌, ◌≡◌,
  refl, ap, ◌∙◌, arith, some, ◌==◌,
}
use mathlib.Core.List.{Perm, Permᴰ}
use spring.Mr.Worker.{KeyValue, Json}
use spring.Mr.Sequential.{is_sorted, distributed}
use spring.Mr.Lines.{values, lines, line, values-append}
use spring.Mr.Texts.{all_text, all_text-append, all_words}
use spring.Mr.Shares.{pairs_of}
use spring.Mr.Reduced.{length-perm}
use spring.Mr.Agreement.{distributed_lem, sequential-lines}
use spring.Mr.Applications.{word_pairs, wc_map, wc_reduce}

unfoldable pub count_word : Bytes → List Bytes → ℕ
count_word w [] = 0
count_word w (x ∷ xs) = let rest = count_word w xs in if same x w then suc rest else rest

-- How often `w` is among the words of the files.
unfoldable pub occurrences : (Bytes → List Bytes) → Bytes → List (Bytes × Bytes) → ℕ
unfolding count_word
occurrences fields w [] = 0
occurrences fields w ((f, c) ∷ files) = count_word w (fields c) + occurrences fields w files

length-values : (w : Bytes) (ws : List Bytes) → length (values w (word_pairs ws)) ≡ count_word w ws
unfolding values word_pairs count_word
length-values w [] = refl
length-values w (x ∷ xs) = ground (arith, length-values w xs)

values-occurrences :
    (fields : Bytes → List Bytes) (w : Bytes) (files : List (Bytes × Bytes))
    → length (values w (pairs_of (wc_map fields) files)) ≡ occurrences fields w files
unfolding values pairs_of wc_map occurrences
values-occurrences fields w [] = refl
values-occurrences fields w ((f, c) ∷ files) =
    let words = word_pairs (fields c) in
    let rest = pairs_of (wc_map fields) files in
    ap length (values-append w words rest)
    ∙ length-append (values w words) (values w rest)
    ∙ (rw (length-values w (fields c), values-occurrences fields w files) refl)

wc_line :
    (itoa : ℕ → Bytes) (w : Bytes) (vs : List Bytes)
    → line (wc_reduce itoa) w vs ≡ (if length vs == 0 then [] else itoa (length vs) ∷ [])
unfolding line wc_reduce
wc_line itoa w [] = refl
wc_line itoa w (v ∷ vs) = ground arith

pub wc_any_order :
    (itoa : ℕ → Bytes) (k : Bytes) (vs ws : List Bytes)
    → Perm vs ws
    → wc_reduce itoa k vs ≡ wc_reduce itoa k ws
unfolding wc_reduce
wc_any_order itoa k vs ws p = ap itoa (length-perm p)

-- The pairs of words in valid UTF-8.
wc_map-text :
    (json : Json)
    → json.is_text (49 ∷ []) ≡ true
    → (words : List Bytes) → all_words json words ≡ true
    → all_text json (word_pairs words) ≡ true
unfolding all_text word_pairs all_words
wc_map-text json one [] h = refl
wc_map-text json one (w ∷ ws) h = ground (arith, wc_map-text json one ws)

pairs_of-text :
    (json : Json) (fields : Bytes → List Bytes)
    → json.is_text (49 ∷ []) ≡ true
    → ((contents : Bytes) → all_words json (fields contents) ≡ true)
    → (files : List (Bytes × Bytes)) → all_text json (pairs_of (wc_map fields) files) ≡ true
unfolding all_text pairs_of wc_map
pairs_of-text json fields one words [] = refl
pairs_of-text json fields one words ((f, c) ∷ files) = ground (
  arith,
  all_text-append json (word_pairs (fields c)) (pairs_of (wc_map fields) files),
  wc_map-text json one (fields c) (words c),
  pairs_of-text json fields one words files,
)

-- Over a sort of `ByKey`, an encoding that gives back the pairs of strings in valid UTF-8, to which
-- "1" and the words of any contents belong, where there is a reduce task: a job of wc.go in which
-- each task is committed once ends without a panic or a failure to decode, whatever the hash and
-- the order in which the map tasks commit, and the output has one line for a word of the files,
-- with the number of times that it occurs in them, and no line for another word.
pub word_count_lem :
    (sort : List KeyValue → List KeyValue)
    → ((kvs : List KeyValue) → is_sorted (sort kvs) ≡ true)
    → ((kvs : List KeyValue) → Perm (sort kvs) kvs)
    → (json : Json)
    → ((kv : KeyValue)
        → json.is_text kv.key ≡ true
        → json.is_text kv.value ≡ true
        → json.decode (json.encode kv) ≡ some kv)
    → json.is_text (49 ∷ []) ≡ true
    → (fields : Bytes → List Bytes) → ((contents : Bytes) → all_words json (fields contents) ≡ true)
    → (sum32 : Bytes → ℕ) (n : ℕ) (itoa : ℕ → Bytes) (files committed : List (Bytes × Bytes))
    → 0 < n
    → Permᴰ committed files
    → (out : List (Bytes × Bytes)) × (distributed json sort sum32 n
          (wc_map fields)
          (wc_reduce itoa)
          committed
        ≡ some out)
      × ((w : Bytes)
          → lines w out ≡ (
              if occurrences fields w files == 0
              then []
              else itoa (occurrences fields w files) ∷ []))
word_count_lem sort sorts perms json decode-encode one fields words sum32 n itoa files committed
      pos_n p =
    let any = wc_any_order itoa in
    let (out, e, agrees) =
      distributed_lem sort (wc_reduce itoa) sorts perms any json decode-encode sum32 n
        (wc_map fields) files committed pos_n p (pairs_of-text json fields one words committed) in
    (
      out,
      e,
      λ w.
          agrees w
          ∙ sequential-lines sort (wc_reduce itoa) sorts perms any (wc_map fields) files w
          ∙ wc_line itoa w (values w (pairs_of (wc_map fields) files))
          ∙ ap (λ m. if m == 0 then [] else itoa m ∷ []) (values-occurrences fields w files),
    )
