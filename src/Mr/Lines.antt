-- ===== src/Mr/Lines.antt =====
-- The lines that a reduce task writes for a key, from the values that its input holds for it.
use spring.Common.{List, [], ◌∷◌, ◌++◌, Bytes, same, if◌then◌else◌, ◌≡◌, refl, arith}
use spring.Mr.Worker.{KeyValue}

-- The values of key `k`, in their order.
unfoldable pub values : Bytes → List KeyValue → List Bytes
values k [] = []
values k (kv ∷ kvs) = let rest = values k kvs in if same kv.key k then kv.value ∷ rest else rest

-- What the lines of key `k` say, in their order.
unfoldable pub lines : Bytes → List (Bytes × Bytes) → List Bytes
lines k [] = []
lines k ((k', v) ∷ out) = let rest = lines k out in if same k' k then v ∷ rest else rest

-- One line for a key that has a value, and none for a key that has not.
unfoldable pub line : (Bytes → List Bytes → Bytes) → Bytes → List Bytes → List Bytes
line reducef k [] = []
line reducef k (v ∷ vs) = reducef k (v ∷ vs) ∷ []

pub lines-append :
    (k : Bytes) (xs ys : List (Bytes × Bytes)) → lines k (xs ++ ys) ≡ lines k xs ++ lines k ys
unfolding lines
lines-append k [] ys = refl
lines-append k ((k', v) ∷ xs) ys = ground (arith, lines-append k xs ys)

pub values-append :
    (k : Bytes) (xs ys : List KeyValue) → values k (xs ++ ys) ≡ values k xs ++ values k ys
unfolding values
values-append k [] ys = refl
values-append k (kv ∷ xs) ys = ground (arith, values-append k xs ys)
