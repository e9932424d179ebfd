-- ===== src/Models/Runs.antt =====
-- A run of the server of src/kvsrv/server.go as a history of the model of src/models/kv.go.
use spring.Common.{
  Bool, true, false, List, [], ◌∷◌, Option, none, some, Bytes, same, same_eq, same_refl, ◌≡◌, refl,
  sym, ap, ◌∙◌, subst, ◌&&◌, Bool-cases, Option-cases, inl, inr, if◌then◌else◌,
}
use spring.Kvsrv.Server.{KvServer, PutAppendArgs, value_at, get, clear, GetArgs}
use spring.Kvsrv.Clerk.{
  Op, put_op, append_op, op_request, Request, get_request, put_request, append_request,
  clear_request, serve, serve_all,
}
use spring.Kvsrv.Once.{serve_fresh, serve_cached, wrote}
use spring.Models.Kv.{KvInput, KvOutput, kv_step, of_key}
use spring.Models.Server.{input_of, serve-kv_step}

abbrev pub Call : Type 0
Call = KvInput × KvOutput

-- A write that has a cached reply is not an operation of its own.
abbrev pub recorded : Option Bytes → Call → List Call → List Call
recorded none c rest = c ∷ rest
recorded (some v) c rest = rest

-- The operations of the requests, in the order in which the server handles them: the reads, and the
-- writes that it handles for the first time.
unfoldable pub history : List Request → KvServer → List Call
unfolding serve
history [] kv = []
history (get_request args ∷ rs) kv =
    (record { op = 0; key = args.key; value = [] }, record { value = get args kv }) ∷ history rs kv
history (put_request args ∷ rs) kv =
    let served = serve (put_request args) kv in
    recorded (kv.op_cache args.op_reg) (input_of put_op args, record { value = served.1 })
      (history rs served.0)
history (append_request args ∷ rs) kv =
    let served = serve (append_request args) kv in
    recorded (kv.op_cache args.op_reg) (input_of append_op args, record { value = served.1 })
      (history rs served.0)
history (clear_request args ∷ rs) kv = history rs (clear args kv)

-- The steps of the model along a history of one key.
unfoldable pub steps : Bytes → List Call → Bool × Bytes
unfolding kv_step
steps st [] = (true, st)
steps st ((inp, out) ∷ calls) =
    let s = kv_step st inp out in let rest = steps s.1 calls in (s.0 && rest.0, rest.1)

steps-cons :
    (st st' : Bytes) (inp : KvInput) (out : KvOutput) (calls : List Call)
    → kv_step st inp out ≡ (true, st')
    → steps st ((inp, out) ∷ calls) ≡ steps st' calls
unfolding steps
steps-cons st st' inp out calls e = rw e refl

-- A write leaves the other keys alone.
wrote-other :
    (op : Op) (args : PutAppendArgs) (kv : KvServer) (k : Bytes)
    → same args.key k ≡ false
    → value_at k (wrote op args kv).data_map ≡ value_at k kv.data_map
unfolding value_at
wrote-other op args kv k h = rw h refl

input_of-key : (op : Op) (args : PutAppendArgs) → (input_of op args).key ≡ args.key
input_of-key put_op args = refl
input_of-key append_op args = refl

of_key-cons :
    (k j : Bytes) (inp : KvInput) (out : KvOutput) (rest : List Call)
    → inp.key ≡ j
    → of_key (λ (c : Call). c.0) k ((inp, out) ∷ rest) ≡ (
        if same j k
        then (inp, out) ∷ of_key (λ (c : Call). c.0) k rest
        else of_key (λ (c : Call). c.0) k rest)
unfolding of_key
of_key-cons k j inp out rest e = rw (of_key, e) refl

value_at-served :
    (op : Op) (args : PutAppendArgs) (kv : KvServer) (k : Bytes)
    → kv.op_cache args.op_reg ≡ none
    → same args.key k ≡ false
    → value_at k (serve (op_request op args) kv).0.data_map ≡ value_at k kv.data_map
value_at-served op args kv k e h =
    ap (λ (s : KvServer × Bytes). value_at k s.0.data_map) (serve_fresh op args kv e)
    ∙ wrote-other op args kv k h

-- What `recorded` adds for a write is what the model allows on the key, and no other key changes.
steps-write :
    (op : Op) (args : PutAppendArgs) (kv : KvServer) (k : Bytes) (rest : List Call) (end : Bytes)
    → steps
        (value_at k (serve (op_request op args) kv).0.data_map)
        (of_key (λ (c : Call). c.0) k rest)
      ≡ (true, end)
    → steps (value_at k kv.data_map) (
        of_key
          (λ (c : Call). c.0)
          k
          (recorded
            (kv.op_cache args.op_reg)
            (input_of op args, record { value = (serve (op_request op args) kv).1 })
            rest))
      ≡ (true, end)
steps-write op args kv k rest end h = elim (Option-cases (kv.op_cache args.op_reg)) [
  | inl e ↦
      (let out : KvOutput = record { value = (serve (op_request op args) kv).1 } in
        let key = of_key-cons k args.key (input_of op args) out rest (input_of-key op args) in
        rw (e, key)
          (elim (Bool-cases (same args.key k)) [
            | inl y ↦ rw y (
                steps-cons (value_at k kv.data_map)
                  (value_at k (serve (op_request op args) kv).0.data_map) (input_of op args) out
                  (of_key (λ (c : Call). c.0) k rest)
                  (subst
                    (λ (z : Bytes).
                      kv_step (value_at z kv.data_map) (input_of op args) out
                      ≡ (true, value_at z (serve (op_request op args) kv).0.data_map))
                    (same_eq args.key k y) (serve-kv_step op args kv e))
                ∙ h)
            | inr n ↦ rw n (
                ap (λ (st : Bytes). steps st (of_key (λ (c : Call). c.0) k rest))
                  (sym (value_at-served op args kv k e n))
                ∙ h)
          ]))
  | inr (v, e) ↦ rw e (
      subst
        (λ (s : KvServer × Bytes).
          steps (value_at k s.0.data_map) (of_key (λ (c : Call). c.0) k rest) ≡ (true, end))
        (serve_cached op args kv v e) h)
]

get-kv_step :
    (args : GetArgs) (kv : KvServer)
    → kv_step
        (value_at args.key kv.data_map)
        (record { op = 0; key = args.key; value = [] })
        (record { value = get args kv })
      ≡ (true, value_at args.key kv.data_map)
unfolding kv_step get
get-kv_step args kv = rw (same_refl (value_at args.key kv.data_map)) refl

-- A read is a step of the model on its key.
steps-read :
    (args : GetArgs) (kv : KvServer) (k : Bytes) (rest : List Call) (out : Bool × Bytes)
    → steps (value_at k kv.data_map) (of_key (λ (c : Call). c.0) k rest) ≡ out
    → steps (value_at k kv.data_map) (
        of_key
          (λ (c : Call). c.0)
          k
          ((record { op = 0; key = args.key; value = [] }, record { value = get args kv }) ∷ rest))
      ≡ out
steps-read args kv k rest out h =
    let inp : KvInput = record { op = 0; key = args.key; value = [] } in
    let answer : KvOutput = record { value = get args kv } in
    rw (of_key-cons k args.key inp answer rest refl) (elim (Bool-cases (same args.key k)) [
      | inl y ↦ rw y (
          steps-cons (value_at k kv.data_map) (value_at k kv.data_map) inp answer
            (of_key (λ (c : Call). c.0) k rest)
            (subst
              (λ (z : Bytes).
                kv_step (value_at z kv.data_map) inp answer ≡ (true, value_at z kv.data_map))
              (same_eq args.key k y) (get-kv_step args kv))
          ∙ h)
      | inr n ↦ rw n h
    ])

-- In a run of the server over any requests, with repetitions of writes and dropped replies among
-- them: for every key, the reads of the key and the writes to it that were handled for the first
-- time are, with their replies and in the order of the server, steps that the model allows from the
-- value of the key at the start, and they lead to its value at the end.
pub history_lem :
    (k : Bytes) (rs : List Request) (kv : KvServer)
    → steps (value_at k kv.data_map) (of_key (λ (c : Call). c.0) k (history rs kv))
      ≡ (true, value_at k (serve_all rs kv).data_map)
unfolding history serve_all serve clear of_key steps
history_lem k [] kv = refl
history_lem k (get_request args ∷ rs) kv =
    steps-read args kv k (history rs kv) _ (history_lem k rs kv)
history_lem k (put_request args ∷ rs) kv =
    steps-write put_op args kv k (history rs (serve (put_request args) kv).0) _
      (history_lem k rs (serve (put_request args) kv).0)
history_lem k (append_request args ∷ rs) kv =
    steps-write append_op args kv k (history rs (serve (append_request args) kv).0) _
      (history_lem k rs (serve (append_request args) kv).0)
history_lem k (clear_request args ∷ rs) kv = history_lem k rs (clear args kv)
