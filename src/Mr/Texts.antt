-- ===== src/Mr/Texts.antt =====
-- Pairs of src/mr/worker.go whose strings are valid UTF-8, which encoding/json gives back.
use spring.Common.{ℕ, true, List, [], ◌∷◌, ◌++◌, Bytes, ◌≡◌, refl, ◌∙◌, arith, Bool, ◌&&◌}
use mathlib.Core.List.{Perm, Permᴰ}
use spring.Mr.Worker.{KeyValue, Json}
use spring.Mr.Grouping.{share}
use mathlib.Core.Logic.{∥∥₁_elim}
use mathlib.Core.Bool.{Bool-set}

-- Whether the keys and the values of all the pairs are valid UTF-8.
unfoldable pub all_text : Json → List KeyValue → Bool
all_text json [] = true
all_text json (kv ∷ kvs) = json.is_text kv.key && (json.is_text kv.value && all_text json kvs)

-- Whether all the strings are valid UTF-8.
unfoldable pub all_words : Json → List Bytes → Bool
all_words json [] = true
all_words json (w ∷ ws) = json.is_text w && all_words json ws

swapped_and : (b b' c : Bool) → (b && (b' && c)) ≡ (b' && (b && c))
swapped_and b b' c = ground arith

all_words-permd :
    (json : Json) {xs ys : List Bytes} → Permᴰ xs ys → all_words json xs ≡ all_words json ys
unfolding all_words
all_words-permd json Permᴰ.nil = refl
all_words-permd json (Permᴰ.cons e p) = rw (e, all_words-permd json p) refl
all_words-permd json (Permᴰ.swap {a = a} {b = b} {l = l} e e') =
    swapped_and (json.is_text a) (json.is_text b) (all_words json l) ∙ (rw (e, e') refl)
all_words-permd json (Permᴰ.trans p q) = all_words-permd json p ∙ all_words-permd json q

pub all_words-perm :
    (json : Json) {xs ys : List Bytes} → Perm xs ys → all_words json xs ≡ all_words json ys
all_words-perm json {xs} {ys} p =
    ∥∥₁_elim p (Bool-set (all_words json xs) (all_words json ys)) (all_words-permd json)

pub all_text-append :
    (json : Json) (xs ys : List KeyValue)
    → all_text json (xs ++ ys) ≡ (all_text json xs && all_text json ys)
unfolding all_text
all_text-append json [] ys = refl
all_text-append json (kv ∷ xs) ys = ground (arith, all_text-append json xs ys)

pub all_text-share :
    (json : Json) (sum32 : Bytes → ℕ) (n i : ℕ) (kvs : List KeyValue)
    → all_text json kvs ≡ true
    → all_text json (share sum32 n i kvs) ≡ true
unfolding all_text share
all_text-share json sum32 n i [] h = refl
all_text-share json sum32 n i (kv ∷ kvs) h = ground (arith, all_text-share json sum32 n i kvs)
