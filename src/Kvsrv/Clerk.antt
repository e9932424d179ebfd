-- ===== src/Kvsrv/Clerk.antt =====
-- src/kvsrv/client.go: a clerk against the server, over a network that loses requests and replies.
-- `Call` of labrpc runs the handler at most once and then returns; between two tries of a clerk
-- the server handles any requests of the others.
use spring.Common.{List, [], ◌∷◌, Option, none, some, Bytes}
use spring.Kvsrv.Server.{PutAppendArgs, GetArgs, ClearArgs, KvServer, get, put, append, clear}

pub data Request : Type 0 where
  get_request : GetArgs → Request
  put_request : PutAppendArgs → Request
  append_request : PutAppendArgs → Request
  clear_request : ClearArgs → Request

-- The server's dispatch: the new state and `reply.Value`.
unfoldable pub serve : Request → KvServer → KvServer × Bytes
unfolding get put append clear
serve (get_request args) kv = (kv, get args kv)
serve (put_request args) kv = put args kv
serve (append_request args) kv = append args kv
serve (clear_request args) kv = (clear args kv, [])

unfoldable pub serve_all : List Request → KvServer → KvServer
unfolding serve
serve_all [] kv = kv
serve_all (r ∷ rs) kv = serve_all rs (serve r kv).0

-- What becomes of one try: the request is lost, its reply is lost, or the call returns true.
pub data Fate : Type 0 where
  lost : Fate
  unanswered : Fate
  answered : Fate

-- One try, after the requests of others that the server handles before it.
abbrev pub Round : Type 0
Round = List Request × Fate

-- `for !ck.server.Call(...) {}`. The state, and the reply once a call has returned true.
unfoldable pub retry : Request → List Round → KvServer → KvServer × Option Bytes
unfolding serve serve_all
retry r [] kv = (kv, none)
retry r ((others, lost) ∷ rounds) kv = retry r rounds (serve_all others kv)
retry r ((others, unanswered) ∷ rounds) kv = retry r rounds (serve r (serve_all others kv)).0
retry r ((others, answered) ∷ rounds) kv =
    let served = serve r (serve_all others kv) in (served.0, some served.1)

-- The op of `PutAppend`.
pub data Op : Type 0 where
  put_op append_op : Op

abbrev pub op_request : Op → PutAppendArgs → Request
op_request put_op args = put_request args
op_request append_op args = append_request args

abbrev pub both : Option Bytes → Option Bytes → Option Bytes
both none cleared = none
both (some v) none = none
both (some v) (some w) = some v

-- The second loop, which starts when the first has got its reply.
unfoldable pub send_clear :
    ClearArgs → List Round → KvServer × Option Bytes → KvServer × Option Bytes
unfolding retry
send_clear args rounds (kv, none) = (kv, none)
send_clear args rounds (kv, some v) =
    let cleared = retry (clear_request args) rounds kv in (cleared.0, both (some v) cleared.1)

-- `PutAppend` with the number that `nrand` has given: its two loops, each with its rounds.
unfoldable pub put_append :
    Op → PutAppendArgs → List Round → List Round → KvServer → KvServer × Option Bytes
unfolding retry send_clear
put_append op args rounds clear_rounds kv =
    send_clear (record { op_reg = args.op_reg }) clear_rounds (retry (op_request op args) rounds kv)

-- `Get` of the clerk.
unfoldable pub clerk_get : GetArgs → List Round → KvServer → KvServer × Option Bytes
unfolding retry
clerk_get args rounds kv = retry (get_request args) rounds kv
