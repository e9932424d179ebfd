-- ===== src/Labrpc/Routing.antt =====
-- How a server of src/labrpc/labrpc.go finds the method of a request.
use spring.Common.{
  ◌+◌, Bool, true, not, ◌&&◌, [], ◌∷◌, ◌++◌, none, some, ◌≡◌, refl, ◌==◌, arith, Bytes,
}
use spring.Labrpc.Server.{ReqMsg, Service, Server, split_dot, service_dispatch, server_dispatch}

-- A name with no dot.
abbrev pub plain : Bytes → Bool
plain [] = true
plain (c ∷ cs) = not (c == 46) && plain cs

split_dot-plain : (cs : Bytes) → plain cs ≡ true → split_dot cs ≡ none
unfolding split_dot
split_dot-plain [] h = refl
split_dot-plain (c ∷ cs) h = rw (split_dot-plain cs (ground (arith, h))) (ground (arith, h))

split_dot-joined :
    (svc meth : Bytes) → plain meth ≡ true → split_dot (svc ++ (46 ∷ meth)) ≡ some (svc, meth)
unfolding split_dot
split_dot-joined [] meth h = rw (split_dot-plain meth h) refl
split_dot-joined (c ∷ cs) meth h = rw (split_dot-joined cs meth h) refl

-- A request for `service.method`, where the method's name has no dot (the service's may have),
-- reaches that method of that service: the server counts it and takes the handler's state, and
-- the reply is the handler's.
pub server_dispatch_lem :
    {σ : Type 0} (req : ReqMsg) (rs : Server σ) (svc meth : Bytes) {service : Service σ}
    {method : Bytes → σ → σ × Bytes}
    → req.svc_meth ≡ svc ++ (46 ∷ meth)
    → plain meth ≡ true
    → rs.services svc ≡ some service
    → service.methods meth ≡ some method
    → server_dispatch req rs
      ≡ some (
        record rs { count = rs.count + 1; state = (method req.args rs.state).0 },
        record { ok = true; reply = (method req.args rs.state).1 },
      )
unfolding server_dispatch service_dispatch
server_dispatch_lem req rs svc meth named h found has =
    rw (named, split_dot-joined svc meth h, found, has) refl
