-- ===== src/Kvsrv/Once.antt =====
-- `PutAppend` and `Get` of src/kvsrv/client.go against the server of src/kvsrv/server.go.
use spring.Common.{
  ℕ, true, false, List, [], ◌∷◌, ◌++◌, Option, none, some, Bytes, ◌≡◌, refl, ◌==◌, ==_refl, ap, sym,
  ◌∙◌, insert, erase, same, Bool-cases, inl, ==_iff, inr,
}
use spring.Kvsrv.Server.{
  KvServer, PutAppendArgs, GetArgs, ClearArgs, put, append, clear, write, value_at, get,
}
use spring.Kvsrv.Clerk.{
  Request, clear_request, Round, lost, unanswered, answered, retry, serve, serve_all, Op, put_op,
  append_op, op_request, put_append, clerk_get, send_clear, both,
}
use spring.Kvsrv.Calls.{
  heard, gets_through, mentions, Once, retry-Once, serve_all-append, serve_all-cache,
  mentions-append,
}

-- What an op makes of the old value.
abbrev pub written : Op → Bytes → Bytes → Bytes
written put_op old value = value
written append_op old value = old ++ value

-- The state in which an op has written, and the old value is cached.
abbrev pub wrote : Op → PutAppendArgs → KvServer → KvServer
wrote op args kv =
    let old = value_at args.key kv.data_map in
    record {
      data_map = insert same args.key (written op old args.value) kv.data_map;
      op_cache = insert ◌==◌ args.op_reg old kv.op_cache;
    }

pub serve_fresh :
    (op : Op) (args : PutAppendArgs) (kv : KvServer)
    → kv.op_cache args.op_reg ≡ none
    → serve (op_request op args) kv ≡ (wrote op args kv, value_at args.key kv.data_map)
unfolding serve put append write
serve_fresh put_op args kv e = rw (e, serve, put) refl
serve_fresh append_op args kv e = rw (e, serve, append) refl

pub serve_cached :
    (op : Op) (args : PutAppendArgs) (kv : KvServer) (v : Bytes)
    → kv.op_cache args.op_reg ≡ some v
    → serve (op_request op args) kv ≡ (kv, v)
unfolding serve put append
serve_cached put_op args kv v e = rw (e, serve, put) refl
serve_cached append_op args kv v e = rw (e, serve, append) refl

caches :
    (op : Op) (args : PutAppendArgs) (kv : KvServer)
    → kv.op_cache args.op_reg ≡ none
    → (serve (op_request op args) kv).0.op_cache args.op_reg
      ≡ some (serve (op_request op args) kv).1
caches op args kv e = rw (serve_fresh op args kv e, ==_refl args.op_reg) refl

erase_absent : (n : ℕ) (m : ℕ → Option Bytes) (k : ℕ) → m n ≡ none → erase ◌==◌ n m k ≡ m k
erase_absent n m k h = elim (Bool-cases (n == k)) [
  | inl e ↦ rw e (sym h ∙ ap m ((==_iff n k).0 e))
  | inr e ↦ rw e refl
]

clear_again :
    (args : ClearArgs) (kv : KvServer) → kv.op_cache args.op_reg ≡ none → clear args kv ≡ kv
unfolding clear
clear_again args kv h =
    λ i. record kv { op_cache = λ k. erase_absent args.op_reg kv.op_cache k h i }

op-Once :
    (op : Op) (args : PutAppendArgs) (rounds : List Round) (kv : KvServer)
    → kv.op_cache args.op_reg ≡ none
    → mentions args.op_reg (heard rounds) ≡ false
    → gets_through rounds ≡ true
    → Once (op_request op args) rounds kv (retry (op_request op args) rounds kv)
op-Once op args =
    retry-Once (op_request op args) args.op_reg (λ c. c ≡ none) (λ v c. c ≡ some v) (caches op args)
      (serve_cached op args)

clear-Once :
    (args : ClearArgs) (rounds : List Round) (kv : KvServer)
    → mentions args.op_reg (heard rounds) ≡ false
    → gets_through rounds ≡ true
    → Once (clear_request args) rounds kv (retry (clear_request args) rounds kv)
unfolding serve clear
clear-Once args rounds kv =
    retry-Once (clear_request args) args.op_reg (λ c. Unit) (λ v c. (c ≡ none) × (v ≡ []))
      (λ kv u. (rw (==_refl args.op_reg) refl, refl))
      (λ kv v (a, b). rw (b, clear_again args kv a) refl) rounds kv tt

write_loop :
    (op : Op) (args : PutAppendArgs) (rounds : List Round) (kv : KvServer)
    → kv.op_cache args.op_reg ≡ none
    → mentions args.op_reg (heard rounds) ≡ false
    → gets_through rounds ≡ true
    → (before after : List Request) × (before ++ after ≡ heard rounds)
      × (retry (op_request op args) rounds kv ≡ (
        serve_all after (wrote op args (serve_all before kv)),
        some (value_at args.key (serve_all before kv).data_map),
      ))
unfolding Once serve_all
write_loop op args rounds kv fresh h d =
    let (before, after, split, e) = op-Once op args rounds kv fresh h d in
    let (hb, ha) = mentions-append args.op_reg before after (rw split h) in
    let served =
      serve_fresh op args (serve_all before kv)
        (serve_all-cache args.op_reg before kv hb ∙ fresh) in
    (
      before,
      after,
      split,
      e
          ∙ (rw (serve_all-append before (op_request op args ∷ after) kv)
              (ap (λ s. (serve_all after s.0, some s.1)) served)),
    )

clear_loop :
    (args : ClearArgs) (rounds : List Round) (kv : KvServer)
    → mentions args.op_reg (heard rounds) ≡ false
    → gets_through rounds ≡ true
    → (until since : List Request) × (until ++ since ≡ heard rounds)
      × (retry (clear_request args) rounds kv
          ≡ (serve_all since (clear args (serve_all until kv)), some []))
      × ((serve_all since (clear args (serve_all until kv))).op_cache args.op_reg ≡ none)
unfolding Once serve_all serve clear
clear_loop args rounds kv h d =
    let (until, since, split, e) = clear-Once args rounds kv h d in
    let (hu, hs) = mentions-append args.op_reg until since (rw split h) in
    (
      until,
      since,
      split,
      e ∙ (rw (serve_all-append until (clear_request args ∷ since) kv) refl),
      serve_all-cache args.op_reg since (clear args (serve_all until kv)) hs
          ∙ (rw (==_refl args.op_reg) refl),
    )

-- The clerk's `Put` or `Append`, when the network loses any requests and replies, both of its loops
-- end, its number is new to the server, and no other clerk uses that number: the write happens
-- once, at one instant between the requests of the others, the old value at that instant is
-- returned, and the cached reply is dropped once, so that no trace of the number stays.
pub put_append_once :
    (op : Op) (args : PutAppendArgs) (rounds clear_rounds : List Round) (kv : KvServer)
    → kv.op_cache args.op_reg ≡ none
    → mentions args.op_reg (heard rounds) ≡ false
    → mentions args.op_reg (heard clear_rounds) ≡ false
    → gets_through rounds ≡ true
    → gets_through clear_rounds ≡ true
    → (before after until since : List Request) × (before ++ after ≡ heard rounds)
      × (until ++ since ≡ heard clear_rounds)
      × (put_append op args rounds clear_rounds kv ≡ (
        serve_all since (
            clear
              (record { op_reg = args.op_reg })
              (serve_all until (serve_all after (wrote op args (serve_all before kv))))),
        some (value_at args.key (serve_all before kv).data_map),
      ))
      × ((put_append op args rounds clear_rounds kv).0.op_cache args.op_reg ≡ none)
unfolding put_append send_clear
put_append_once op args rounds clear_rounds kv fresh h hc d dc =
    let (before, after, split, e) = write_loop op args rounds kv fresh h d in
    let met = serve_all after (wrote op args (serve_all before kv)) in
    let (until, since, split', e', gone) =
      clear_loop (record { op_reg = args.op_reg }) clear_rounds met hc dc in
    let whole =
      ap (send_clear (record { op_reg = args.op_reg }) clear_rounds) e
      ∙ ap (λ s. (s.0, both (some (value_at args.key (serve_all before kv).data_map)) s.1)) e' in
    (
      before,
      after,
      until,
      since,
      split,
      split',
      whole,
      ap (λ s. s.0.op_cache args.op_reg) whole ∙ gone,
    )

-- The clerk's `Get`, when the network loses any requests and replies and its loop ends: it returns
-- the value after all the requests of others that the server has handled, and changes nothing.
pub get_reads_last :
    (args : GetArgs) (rounds : List Round) (kv : KvServer)
    → gets_through rounds ≡ true
    → clerk_get args rounds kv ≡ (
      serve_all (heard rounds) kv,
      some (value_at args.key (serve_all (heard rounds) kv).data_map),
    )
unfolding clerk_get retry serve get heard gets_through
get_reads_last args [] kv d = absurd (cc d)
get_reads_last args ((os, answered) ∷ rounds) kv d = refl
get_reads_last args ((os, lost) ∷ rounds) kv d =
    rw (serve_all-append os (heard rounds) kv) (get_reads_last args rounds (serve_all os kv) d)
get_reads_last args ((os, unanswered) ∷ rounds) kv d =
    rw (serve_all-append os (heard rounds) kv) (get_reads_last args rounds (serve_all os kv) d)
