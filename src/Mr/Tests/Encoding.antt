-- ===== src/Mr/Tests/Encoding.antt =====
-- An encoding of the pairs of src/mr/worker.go, for the parameter that stands for encoding/json: the
-- length of the key, the key and the value.
use spring.Common.{
  Bool, true, [], ◌∷◌, ◌++◌, Option, none, some, Bytes, length, take, drop, ltb, ◌&&◌, ◌≡◌, refl,
  ap,
}
use spring.Mr.Worker.{KeyValue, Json}

abbrev pub ascii : Bytes → Bool
ascii [] = true
ascii (x ∷ xs) = ltb x 128 && ascii xs

abbrev encode_pair : KeyValue → Bytes
encode_pair kv = length kv.key ∷ (kv.key ++ kv.value)

abbrev decode_pair : Bytes → Option KeyValue
decode_pair [] = none
decode_pair (n ∷ xs) = some (record { key = take n xs; value = drop n xs })

abbrev pub json : Json
json = record { encode = encode_pair; decode = decode_pair; is_text = ascii }

take-append : (xs ys : Bytes) → take (length xs) (xs ++ ys) ≡ xs
take-append [] ys = refl
take-append (x ∷ xs) ys = ap (λ l. x ∷ l) (take-append xs ys)

drop-append : (xs ys : Bytes) → drop (length xs) (xs ++ ys) ≡ ys
drop-append [] ys = refl
drop-append (x ∷ xs) ys = drop-append xs ys

pub json-decode :
    (kv : KeyValue)
    → json.is_text kv.key ≡ true
    → json.is_text kv.value ≡ true
    → json.decode (json.encode kv) ≡ some kv
json-decode kv h h' = rw (take-append kv.key kv.value, drop-append kv.key kv.value) refl
