-- ===== src/Models/Kv.antt =====
-- `KvModel` of src/models/kv.go: a register for each key, and the split of a history by key. The
-- sort of package sort is a parameter.
use spring.Common.{ℕ, Bool, true, List, [], ◌∷◌, ◌++◌, Bytes, same, if◌then◌else◌, ◌==◌}

-- 0 is get, 1 put, 2 append, and any other an append that returns the old value.
pub record KvInput : Type 0 where
  pub op : ℕ
  pub key : Bytes
  pub value : Bytes

pub record KvOutput : Type 0 where
  pub value : Bytes

unfoldable pub init : Bytes
init = []

-- Whether the output is right in a state, and the next state.
unfoldable pub kv_step : Bytes → KvInput → KvOutput → Bool × Bytes
kv_step st inp out =
    if inp.op == 0
    then (same out.value st, st)
    else if inp.op == 1
    then (true, inp.value)
    else if inp.op == 2
    then (true, st ++ inp.value)
    else (same out.value st, st ++ inp.value)

abbrev pub add_key : Bytes → List Bytes → List Bytes
add_key k [] = k ∷ []
add_key k (j ∷ js) = let rest = add_key k js in if same j k then j ∷ js else j ∷ rest

-- The operations of a history are values of porcupine, of which only the input is read.
module _ {Operation : Type 0} (input : Operation → KvInput) where
  -- `m[k]`: the operations of a key, in their order.
  unfoldable pub of_key : Bytes → List Operation → List Operation
  of_key k [] = []
  of_key k (v ∷ vs) =
      let rest = of_key k vs in let inp = input v in if same inp.key k then v ∷ rest else rest

  -- The keys of `m`, each once.
  unfoldable pub keys_of : List Operation → List Bytes
  keys_of [] = []
  keys_of (v ∷ vs) = let inp = input v in add_key inp.key (keys_of vs)

  unfoldable pub parts_of : List Bytes → List Operation → List (List Operation)
  unfolding of_key
  parts_of [] history = []
  parts_of (k ∷ ks) history = of_key k history ∷ parts_of ks history

  unfoldable pub partition : (List Bytes → List Bytes) → List Operation → List (List Operation)
  unfolding parts_of keys_of
  partition sort history = parts_of (sort (keys_of history)) history
