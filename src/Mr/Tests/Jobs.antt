-- ===== src/Mr/Tests/Jobs.antt =====
-- Whole jobs of src/mr on small inputs, and the theorems at them.
use spring.Common.{
  true, ltb, Bool-cases, inl, inr, ℕ, ◌==◌, List, [], ◌∷◌, ◌++◌, Bytes, length, some, if◌then◌else◌,
  ◌≡◌, refl, arith, ◌+◌,
}
use mathlib.Core.List.{Permᴰ}
use spring.Mr.Sequential.{sequential, distributed}
use spring.Mr.Lines.{lines}
use spring.Mr.Texts.{all_text, all_words}
use spring.Mr.Shares.{pairs_of}
use spring.Mr.Tests.Encoding.{json, json-decode}
use spring.Mr.Applications.{word_pairs, wc_map, wc_reduce, indexer_map, indexer_reduce}
use spring.Mr.Counts.{wc_any_order, word_count_lem, occurrences}
use spring.Mr.Index.{indexer_lem, documents, names_text}
use spring.Mr.Agreement.{distributed_lem}
use spring.Mr.Tests.Sorts.{
  sort_pairs, sort_pairs-IsSorted, sort_pairs-perm, sort_strings, sort_strings-perm,
}
use mathlib.Core.List.Perm

-- The words are the single bytes that are letters or other ASCII characters, a number is one byte, and the hash of a key its first byte.
abbrev letters : Bytes → List Bytes
letters [] = []
letters (x ∷ xs) = let rest = letters xs in if ltb x 128 then (x ∷ []) ∷ rest else rest

letters-ascii : (contents : Bytes) → all_words json (letters contents) ≡ true
unfolding all_words
letters-ascii [] = refl
letters-ascii (x ∷ xs) = elim (Bool-cases (ltb x 128)) [
  | inl e ↦ rw (e, e) (letters-ascii xs)
  | inr e ↦ rw e (letters-ascii xs)
]

abbrev digit : ℕ → Bytes
digit n = (48 + n) ∷ []

abbrev first_byte : Bytes → ℕ
first_byte [] = 0
first_byte (x ∷ xs) = x

abbrev join_all : List Bytes → Bytes
join_all [] = []
join_all (x ∷ xs) = x ++ join_all xs

abbrev keep : List Bytes → List Bytes
keep m = m

-- Files 1 and 2: "abca" and "ca".
abbrev first : Bytes × Bytes
first = (1 ∷ [], 97 ∷ 98 ∷ 99 ∷ 97 ∷ [])

abbrev second : Bytes × Bytes
second = (2 ∷ [], 99 ∷ 97 ∷ [])

abbrev inputs : List (Bytes × Bytes)
inputs = first ∷ second ∷ []

abbrev committed : List (Bytes × Bytes)
committed = second ∷ first ∷ []

inputs-perm : Permᴰ committed inputs
inputs-perm = Permᴰ.swap refl refl

-- With two reduce tasks, "b" is in mr-out-0, "a" and "c" are in mr-out-1.
word_counts :
    distributed json sort_pairs first_byte 2 (wc_map letters) (wc_reduce digit) committed
    ≡ some ((98 ∷ [], 49 ∷ []) ∷ (97 ∷ [], 51 ∷ []) ∷ (99 ∷ [], 50 ∷ []) ∷ [])
unfolding distributed sort_pairs wc_map wc_reduce
word_counts = refl

one_at_a_time :
    sequential sort_pairs (wc_map letters) (wc_reduce digit) inputs
    ≡ (97 ∷ [], 51 ∷ []) ∷ (98 ∷ [], 49 ∷ []) ∷ (99 ∷ [], 50 ∷ []) ∷ []
unfolding sequential sort_pairs wc_map wc_reduce
one_at_a_time = refl

word_places :
    sequential sort_pairs
      (indexer_map letters keep)
      (indexer_reduce digit sort_strings join_all)
      committed
    ≡ (97 ∷ [], 50 ∷ 32 ∷ 1 ∷ 2 ∷ [])
      ∷ (98 ∷ [], 49 ∷ 32 ∷ 1 ∷ [])
      ∷ (99 ∷ [], 50 ∷ 32 ∷ 1 ∷ 2 ∷ [])
      ∷ []
unfolding sequential sort_pairs indexer_map indexer_reduce sort_strings
word_places = refl

distributed_lem_example :
    (out : List (Bytes × Bytes)) × (distributed json sort_pairs first_byte 2
        (wc_map letters)
        (wc_reduce digit)
        committed
      ≡ some out)
    × ((k : Bytes)
        → lines k out ≡ lines k (sequential sort_pairs (wc_map letters) (wc_reduce digit) inputs))
unfolding all_text pairs_of wc_map word_pairs
distributed_lem_example =
    distributed_lem sort_pairs (wc_reduce digit) sort_pairs-IsSorted sort_pairs-perm
      (wc_any_order digit) json json-decode first_byte 2 (wc_map letters) inputs committed
      (omega arith) inputs-perm refl

word_count_lem_example :
    (out : List (Bytes × Bytes)) × (distributed json sort_pairs first_byte 2
        (wc_map letters)
        (wc_reduce digit)
        committed
      ≡ some out)
    × ((w : Bytes)
        → lines w out ≡ (
            if occurrences letters w inputs == 0
            then []
            else digit (occurrences letters w inputs) ∷ []))
word_count_lem_example =
    word_count_lem sort_pairs sort_pairs-IsSorted sort_pairs-perm json json-decode refl letters
      letters-ascii first_byte 2 digit inputs committed (omega arith) inputs-perm

indexer_lem_example :
    (out : List (Bytes × Bytes)) × (distributed json sort_pairs first_byte 2
        (indexer_map letters keep)
        (indexer_reduce digit sort_strings join_all)
        committed
      ≡ some out)
    × ((w : Bytes)
        → lines w out ≡ (
            if length (documents letters w inputs) == 0
            then []
            else (digit (length (documents letters w inputs))
                ++ (32 ∷ join_all (sort_strings (documents letters w inputs))))
              ∷ []))
unfolding names_text
indexer_lem_example =
    indexer_lem sort_pairs sort_pairs-IsSorted sort_pairs-perm sort_strings sort_strings-perm keep
      (λ m. Perm.rfl) json json-decode letters letters-ascii first_byte 2 digit join_all inputs
      committed (omega arith) inputs-perm refl
