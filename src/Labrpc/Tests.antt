-- ===== src/Labrpc/Tests.antt =====
-- Small runs of the network of src/labrpc/labrpc.go, and the theorems at them.
use spring.Common.{
  if◌then◌else◌, ◌≤◌, true, false, List, [], ◌∷◌, ◌++◌, Option, none, some, ◌≡◌, refl, length,
  Bytes, same,
}
use spring.Labrpc.Server.{
  ReqMsg, ReplyMsg, Service, Server, make_server, add_service, server_dispatch, split_dot,
}
use spring.Labrpc.Network.{
  World, Call, Event, administers, sends, begins, handles, gives_up, make_network, make_end,
  connect, enable, add_server, delete_server, net_run, read_endname_info, is_server_dead, failure,
  replied,
}
use spring.Labrpc.Once.{calls_at_most_once}
use spring.Labrpc.Routing.{server_dispatch_lem}

-- A service whose method puts its arguments into a log, and replies with what was there.
abbrev log_service : Service Bytes
log_service = record {
  name = 75 ∷ [];
  methods = λ m. if same m (97 ∷ []) then some (λ args s. (s ++ args, s)) else none;
}

abbrev log_server : Server Bytes
log_server = add_service log_service (make_server [])

abbrev request : ReqMsg
request = record { endname = 1; svc_meth = 75 ∷ 46 ∷ 97 ∷ []; args = 5 ∷ [] }

dispatched :
    server_dispatch request log_server
    ≡ some (record log_server { count = 1; state = 5 ∷ [] }, record { ok = true; reply = [] })
unfolding server_dispatch
dispatched = refl

server_dispatch_lem_example :
    server_dispatch request log_server
    ≡ some (record log_server { count = 1; state = 5 ∷ [] }, record { ok = true; reply = [] })
server_dispatch_lem_example =
    server_dispatch_lem request log_server (75 ∷ []) (97 ∷ []) {service = log_service}
      {method = λ args s. (s ++ args, s)} refl refl refl refl

abbrev connected : List Event
connected =
    administers (make_end 1)
    ∷ administers (connect 1 2)
    ∷ administers (enable 1 true)
    ∷ administers (add_server 2 3)
    ∷ []

abbrev start_world : World Bytes
start_world = record { net = make_network; objects = λ p. log_server; calls = [] }

abbrev or_start : Option (World Bytes) → World Bytes
or_start none = start_world
or_start (some w) = w

-- The server is deleted while the handler is at work: the client is told of a failure, and the
-- handler runs after that.
abbrev killed : List Event
killed =
    connected
    ++ (sends false request
        ∷ begins 0 false
        ∷ administers (delete_server 2)
        ∷ gives_up 0
        ∷ handles 0
        ∷ [])

abbrev killed_world : World Bytes
killed_world = or_start (net_run killed start_world)

abbrev killed_call : Call
killed_call = record { req = request; phase = replied failure; ran = [] ∷ [] }

calls_at_most_once_example :
    (length killed_call.ran ≤ 1)
    × ((r : ReplyMsg)
        → killed_call.phase ≡ replied r
        → r.ok ≡ true
        → killed_call.ran ≡ r.reply ∷ [])
unfolding net_run read_endname_info is_server_dead server_dispatch split_dot
calls_at_most_once_example =
    calls_at_most_once (λ p. log_server) killed 0 {w = killed_world} {c = killed_call} refl refl
