-- ===== src/Mr/Applications.antt =====
-- src/mrapps/wc.go and src/mrapps/indexer.go. The functions of the packages strings, strconv and
-- sort are parameters, and so is the order in which Go goes through a map; `Sprintf` is written out.
use spring.Common.{ℕ, Bool, false, List, [], ◌∷◌, ◌++◌, Bytes, same, length, if◌then◌else◌, ◌||◌}
use spring.Mr.Worker.{KeyValue}

-- `Map` of wc.go: its loop over the words. "1" is byte 49.
unfoldable pub word_pairs : List Bytes → List KeyValue
word_pairs [] = []
word_pairs (w ∷ ws) = record { key = w; value = 49 ∷ [] } ∷ word_pairs ws

-- `fields` is `strings.FieldsFunc` with the test for what is not a letter.
unfoldable pub wc_map : (Bytes → List Bytes) → Bytes → Bytes → List KeyValue
unfolding word_pairs
wc_map fields filename contents = word_pairs (fields contents)

unfoldable pub wc_reduce : (ℕ → Bytes) → Bytes → List Bytes → Bytes
wc_reduce itoa key values = itoa (length values)

abbrev pub contains : Bytes → List Bytes → Bool
contains w [] = false
contains w (x ∷ xs) = same x w || contains w xs

-- `m[w] = true` for the words in turn; `m` is the list of its keys.
unfoldable pub mark_words : List Bytes → List Bytes → List Bytes
mark_words [] m = m
mark_words (w ∷ ws) m = mark_words ws (if contains w m then m else w ∷ m)

-- `for w := range m`
unfoldable pub document_pairs : Bytes → List Bytes → List KeyValue
document_pairs document [] = []
document_pairs document (w ∷ ws) = record { key = w; value = document } ∷ document_pairs document ws

-- `Map` of indexer.go; `range` puts the keys of a map in the order in which Go goes through them.
unfoldable pub indexer_map :
    (Bytes → List Bytes) → (List Bytes → List Bytes) → Bytes → Bytes → List KeyValue
unfolding mark_words document_pairs
indexer_map fields range document value =
    document_pairs document (range (mark_words (fields value) []))

-- "%d %s": a space, byte 32, between the two; `join` is `strings.Join` with a comma.
unfoldable pub indexer_reduce :
    (ℕ → Bytes) → (List Bytes → List Bytes) → (List Bytes → Bytes) → Bytes → List Bytes → Bytes
indexer_reduce itoa sort_strings join key values =
    itoa (length values) ++ (32 ∷ join (sort_strings values))
