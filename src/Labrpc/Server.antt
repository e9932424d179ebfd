-- ===== src/Labrpc/Server.antt =====
-- The servers and services of src/labrpc/labrpc.go. A method decodes its arguments, runs the handler
-- on the receiver and encodes the reply; the receiver's state is `σ`. `none` is `log.Fatalf` or a
-- panic. `MakeService` finds the methods by reflection, so they are given.
use spring.Common.{
  ℕ, ◌+◌, Bool, true, [], ◌∷◌, Option, none, some, ◌==◌, if◌then◌else◌, ◌>>=◌, Bytes, same, insert,
  empty,
}

pub record ReqMsg : Type 0 where
  pub endname : ℕ
  pub svc_meth : Bytes
  pub args : Bytes

pub record ReplyMsg : Type 0 where
  pub ok : Bool
  pub reply : Bytes

pub record Service (σ : Type 0) : Type 0 where
  pub name : Bytes
  pub methods : Bytes → Option (Bytes → σ → σ × Bytes)

-- A server, with the state of its receivers.
pub record Server (σ : Type 0) : Type 0 where
  pub services : Bytes → Option (Service σ)
  pub count : ℕ
  pub state : σ

-- The last dot of a name: what stands before it and behind it.
unfoldable pub split_dot : Bytes → Option (Bytes × Bytes)
split_dot [] = none
split_dot (c ∷ cs) = elim (split_dot cs) [
  | some (before, behind) ↦ some (c ∷ before, behind)
  | none ↦ if c == 46 then some ([], cs) else none
]

module _ {σ : Type 0} where
  abbrev pub make_server : σ → Server σ
  make_server s = record { services = empty; count = 0; state = s }

  abbrev pub add_service : Service σ → Server σ → Server σ
  add_service svc rs = record rs { services = insert same svc.name svc rs.services }

  -- `Service.dispatch`
  unfoldable pub service_dispatch : Service σ → Bytes → Bytes → σ → Option (σ × ReplyMsg)
  service_dispatch svc methname args s = do
    method ← svc.methods methname
    let (s', reply) = method args s
    some (s', record { ok = true; reply = reply })

  -- `Server.dispatch`
  unfoldable pub server_dispatch : ReqMsg → Server σ → Option (Server σ × ReplyMsg)
  unfolding split_dot service_dispatch
  server_dispatch req rs = do
    (service_name, method_name) ← split_dot req.svc_meth
    service ← rs.services service_name
    (s, reply) ← service_dispatch service method_name req.args rs.state
    some (record rs { count = rs.count + 1; state = s }, reply)
