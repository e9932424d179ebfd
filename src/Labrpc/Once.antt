-- ===== src/Labrpc/Once.antt =====
-- What a call over the network of src/labrpc/labrpc.go may expect.
use spring.Common.{
  ℕ, zero, suc, ◌≤◌, Bool, true, false, not, ◌&&◌, ◌||◌, List, [], ◌∷◌, ◌++◌, Option, none, some,
  ◌≡◌, refl, ◌⊎◌, inl, inr, if◌then◌else◌, length, get_elem?, set, arith, ap, sym, ◌∙◌, subst,
  Bool-cases, >>=-eq-some, Bytes,
}
use mathlib.Core.Option.{some-injective}
use spring.Labrpc.Server.{
  ReqMsg, ReplyMsg, Service, Server, split_dot, service_dispatch, server_dispatch,
}
use spring.Labrpc.Network.{
  Network, make_network, admin, Route, read_endname_info, is_server_dead, Phase, arrived, calling,
  returned, abandoned, replied, Call, World, Event, administers, sends, begins, handles, gives_up,
  finishes, begin_phase, finish_phase, handle, handle_phase, begin_call, give_up, finish_call,
  net_step, net_run, sent_phase,
}

-- Before its handler runs a call has no reply; a client's success is the reply of the only run.
abbrev pub Expects : Phase → List Bytes → Type 0
Expects arrived ran = ran ≡ []
Expects (calling to) ran = ran ≡ []
Expects (returned to r) ran = (r.ok ≡ true) × (ran ≡ r.reply ∷ [])
Expects (abandoned to) ran = ran ≡ []
Expects (replied r) ran =
    ((r.ok ≡ true) × (ran ≡ r.reply ∷ [])) ⊎ ((r.ok ≡ false) × (length ran ≤ 1))

abbrev pub AllExpect : List Call → Type 0
AllExpect [] = Unit
AllExpect (c ∷ cs) = Expects c.phase c.ran × AllExpect cs

AllExpect-at :
    (cs : List Call) (k : ℕ) {c : Call}
    → AllExpect cs
    → get_elem? cs k ≡ some c
    → Expects c.phase c.ran
AllExpect-at [] k h e = absurd (cc e)
AllExpect-at (x ∷ cs) zero {c} h e =
    subst (λ (x : Call). Expects x.phase x.ran) (some-injective x c e) h.0
AllExpect-at (c ∷ cs) (suc k) h e = AllExpect-at cs k h.1 e

AllExpect-set :
    (cs : List Call) (k : ℕ) (c : Call)
    → AllExpect cs
    → Expects c.phase c.ran
    → AllExpect (set cs k c)
AllExpect-set [] k c h e = tt
AllExpect-set (x ∷ xs) zero c h e = (e, h.1)
AllExpect-set (x ∷ xs) (suc k) c h e = (h.0, AllExpect-set xs k c h.1 e)

AllExpect-append :
    (cs : List Call) (c : Call) → AllExpect cs → Expects c.phase c.ran → AllExpect (cs ++ (c ∷ []))
AllExpect-append [] c h e = (e, tt)
AllExpect-append (x ∷ xs) c h e = (h.0, AllExpect-append xs c h.1 e)

begin_Expects : (dropped : Bool) (o : Option Route) → Expects (begin_phase dropped o) []
begin_Expects dropped none = inr (refl, omega arith)
begin_Expects dropped (some to) = elim (Bool-cases (not to.reliable && dropped)) [
  | inl e ↦ rw e (inr (refl, omega arith))
  | inr e ↦ rw e refl
]

finish_Expects :
    (dropped : Bool) (e : ℕ) (to : Route) (r : ReplyMsg) (rn : Network) (ran : List Bytes)
    → r.ok ≡ true
    → ran ≡ r.reply ∷ []
    → Expects (finish_phase dropped e to r rn) ran
finish_Expects dropped e to r rn ran ok h =
    elim (Bool-cases (is_server_dead e to rn || (not to.reliable && dropped))) [
      | inl b ↦ rw b (inr (refl, omega (arith, ap length h)))
      | inr b ↦ rw b (inl (ok, h))
    ]

sent_Expects : (first : Bool) (rn : Network) → Expects (sent_phase first rn) []
sent_Expects first rn = elim (Bool-cases (rn.closed && not first)) [
  | inl e ↦ rw e (inr (refl, omega arith))
  | inr e ↦ rw e refl
]

ran_once : (p : Phase) (ran : List Bytes) → Expects p ran → length ran ≤ 1
ran_once arrived ran e = omega (arith, ap length e)
ran_once (calling to) ran e = omega (arith, ap length e)
ran_once (returned to r) ran e = omega (arith, ap length e.1)
ran_once (abandoned to) ran e = omega (arith, ap length e)
ran_once (replied r) ran (inl e) = omega (arith, ap length e.1)
ran_once (replied r) ran (inr e) = e.1

told :
    (p : Phase) (ran : List Bytes)
    → Expects p ran
    → (r : ReplyMsg) → p ≡ replied r
    → r.ok ≡ true
    → ran ≡ r.reply ∷ []
told arrived ran e r h ok = absurd (cc h)
told (calling to) ran e r h ok = absurd (cc h)
told (returned to q) ran e r h ok = absurd (cc h)
told (abandoned to) ran e r h ok = absurd (cc h)
told (replied q) ran e r h ok =
    let q_r : q ≡ r = cc h in
    elim e [
      | inl one ↦ one.1 ∙ ap (λ (x : ReplyMsg). x.reply ∷ []) q_r
      | inr bad ↦ absurd (cc (bad.0, ok, q_r))
    ]

route_alive :
    (e : ℕ) (to : Route) (rn : Network)
    → read_endname_info e rn ≡ some to
    → is_server_dead e to rn ≡ false
unfolding read_endname_info is_server_dead
route_alive e to rn h = ground arith

if_some {ℓ} :
    {A : Type ℓ} (b : Bool) (m : A) {d : A} → (if b then some m else none) ≡ some d → m ≡ d
if_some true m {d} h = some-injective m d h
if_some false m h = absurd (cc h)

module _ {σ : Type 0} where
  service_dispatch-ok :
      (svc : Service σ) (methname args : Bytes) (s : σ) {s' : σ} {reply : ReplyMsg}
      → service_dispatch svc methname args s ≡ some (s', reply)
      → reply.ok ≡ true
  unfolding service_dispatch
  service_dispatch-ok svc methname args s {s'} {reply} h =
      let (method, e, h') = >>=-eq-some (svc.methods methname) _ h in
      sym (ap (λ (x : σ × ReplyMsg). x.1.ok) (some-injective _ (s', reply) h'))

  -- A server that dispatches a request replies with success.
  server_dispatch-ok :
      (req : ReqMsg) (rs : Server σ) {rs' : Server σ} {reply : ReplyMsg}
      → server_dispatch req rs ≡ some (rs', reply)
      → reply.ok ≡ true
  unfolding server_dispatch
  server_dispatch-ok req rs {rs'} {reply} h =
      let ((service_name, method_name), e, h1) = >>=-eq-some (split_dot req.svc_meth) _ h in
      let (service, e1, h2) = >>=-eq-some (rs.services service_name) _ h1 in
      let ((s, r), e2, h3) =
        >>=-eq-some (service_dispatch service method_name req.args rs.state) _ h2 in
      sym (ap (λ (x : Server σ × ReplyMsg). x.1.ok) (some-injective _ (rs', reply) h3))
      ∙ service_dispatch-ok service method_name req.args rs.state e2

  handle_phase-AllExpect :
      (k : ℕ) (c : Call) (p : Phase) (w : World σ) {w' : World σ}
      → Expects p c.ran
      → AllExpect w.calls
      → handle_phase k c p w ≡ some w'
      → AllExpect w'.calls
  unfolding handle_phase handle
  handle_phase-AllExpect k c (calling to) w {w'} e a h =
      let ((rs, reply), d, h') = >>=-eq-some (server_dispatch c.req (w.objects to.server)) _ h in
      subst (λ (x : World σ). AllExpect x.calls) (some-injective _ w' h')
        (AllExpect-set w.calls k _ a
          (server_dispatch-ok c.req (w.objects to.server) d, ap (λ l. l ++ (reply.reply ∷ [])) e))
  handle_phase-AllExpect k c (abandoned to) w {w'} e a h =
      let ((rs, reply), d, h') = >>=-eq-some (server_dispatch c.req (w.objects to.server)) _ h in
      subst (λ (x : World σ). AllExpect x.calls) (some-injective _ w' h')
        (AllExpect-set w.calls k _ a
          (inr (refl, omega (arith, ap (λ l. length (l ++ (reply.reply ∷ []))) e))))
  handle_phase-AllExpect k c arrived w e a h = absurd (cc h)
  handle_phase-AllExpect k c (returned to r) w e a h = absurd (cc h)
  handle_phase-AllExpect k c (replied r) w e a h = absurd (cc h)

  begin_call-AllExpect :
      (k : ℕ) (dropped : Bool) (c : Call) (p : Phase) (w : World σ) {w' : World σ}
      → Expects p c.ran
      → AllExpect w.calls
      → begin_call k dropped c p w ≡ some w'
      → AllExpect w'.calls
  unfolding begin_call
  begin_call-AllExpect k dropped c arrived w {w'} e a h =
      let next = begin_phase dropped (read_endname_info c.req.endname w.net) in
      subst (λ (x : World σ). AllExpect x.calls) (some-injective _ w' h)
        (AllExpect-set w.calls k _ a (
          subst (Expects next) (sym e)
            (begin_Expects dropped (read_endname_info c.req.endname w.net))))
  begin_call-AllExpect k dropped c (calling to) w e a h = absurd (cc h)
  begin_call-AllExpect k dropped c (abandoned to) w e a h = absurd (cc h)
  begin_call-AllExpect k dropped c (returned to r) w e a h = absurd (cc h)
  begin_call-AllExpect k dropped c (replied r) w e a h = absurd (cc h)

  give_up-AllExpect :
      (k : ℕ) (c : Call) (p : Phase) (w : World σ) {w' : World σ}
      → Expects p c.ran
      → AllExpect w.calls
      → give_up k c p w ≡ some w'
      → AllExpect w'.calls
  unfolding give_up
  give_up-AllExpect k c (calling to) w {w'} e a h =
      elim (Bool-cases (is_server_dead c.req.endname to w.net)) [
        | inl dead ↦
            (let abandons = if_some (is_server_dead c.req.endname to w.net) _ h in
              subst (λ (x : World σ). AllExpect x.calls) abandons (AllExpect-set w.calls k _ a e))
        | inr alive ↦
            (let abandons = if_some (is_server_dead c.req.endname to w.net) _ h in
              subst (λ (x : World σ). AllExpect x.calls) abandons (AllExpect-set w.calls k _ a e))
      ]
  give_up-AllExpect k c arrived w e a h = absurd (cc h)
  give_up-AllExpect k c (abandoned to) w e a h = absurd (cc h)
  give_up-AllExpect k c (returned to r) w e a h = absurd (cc h)
  give_up-AllExpect k c (replied r) w e a h = absurd (cc h)

  finish_call-AllExpect :
      (k : ℕ) (dropped : Bool) (c : Call) (p : Phase) (w : World σ) {w' : World σ}
      → Expects p c.ran
      → AllExpect w.calls
      → finish_call k dropped c p w ≡ some w'
      → AllExpect w'.calls
  unfolding finish_call
  finish_call-AllExpect k dropped c (returned to r) w {w'} e a h =
      subst (λ (x : World σ). AllExpect x.calls) (some-injective _ w' h)
        (AllExpect-set w.calls k _ a
          (finish_Expects dropped c.req.endname to r w.net c.ran e.0 e.1))
  finish_call-AllExpect k dropped c arrived w e a h = absurd (cc h)
  finish_call-AllExpect k dropped c (calling to) w e a h = absurd (cc h)
  finish_call-AllExpect k dropped c (abandoned to) w e a h = absurd (cc h)
  finish_call-AllExpect k dropped c (replied r) w e a h = absurd (cc h)

  net_step-AllExpect :
      (e : Event) (w : World σ) {w' : World σ}
      → AllExpect w.calls
      → net_step e w ≡ some w'
      → AllExpect w'.calls
  unfolding net_step
  net_step-AllExpect (administers x) w {w'} a h =
      let (rn, e, h') = >>=-eq-some (admin x w.net) _ h in
      subst (λ (x : World σ). AllExpect x.calls) (some-injective _ w' h') a
  net_step-AllExpect (sends first req) w {w'} a h =
      subst (λ (x : World σ). AllExpect x.calls) (some-injective _ w' h)
        (AllExpect-append w.calls _ a (sent_Expects first w.net))
  net_step-AllExpect (begins k dropped) w a h =
      let (c, e, h') = >>=-eq-some (get_elem? w.calls k) _ h in
      begin_call-AllExpect k dropped c c.phase w (AllExpect-at w.calls k a e) a h'
  net_step-AllExpect (handles k) w a h =
      let (c, e, h') = >>=-eq-some (get_elem? w.calls k) _ h in
      handle_phase-AllExpect k c c.phase w (AllExpect-at w.calls k a e) a h'
  net_step-AllExpect (gives_up k) w a h =
      let (c, e, h') = >>=-eq-some (get_elem? w.calls k) _ h in
      give_up-AllExpect k c c.phase w (AllExpect-at w.calls k a e) a h'
  net_step-AllExpect (finishes k dropped) w a h =
      let (c, e, h') = >>=-eq-some (get_elem? w.calls k) _ h in
      finish_call-AllExpect k dropped c c.phase w (AllExpect-at w.calls k a e) a h'

  net_run-AllExpect :
      (es : List Event) (w : World σ) {w' : World σ}
      → AllExpect w.calls
      → net_run es w ≡ some w'
      → AllExpect w'.calls
  unfolding net_run
  net_run-AllExpect [] w {w'} a h =
      subst (λ (x : World σ). AllExpect x.calls) (some-injective w w' h) a
  net_run-AllExpect (e ∷ es) w a h =
      let (m, s, h') = >>=-eq-some (net_step e w) _ h in
      net_run-AllExpect es m (net_step-AllExpect e w a s) h'

  -- In any run of the network, with servers deleted and replaced, ends disabled, and requests and
  -- replies dropped at any time, the handler of a call runs at most once, also where the client
  -- has been told of a failure, and a client that is told of a success gets the reply of that run.
  pub calls_at_most_once :
      (objects : ℕ → Server σ) (es : List Event) (k : ℕ) {w : World σ} {c : Call}
      → net_run es (record { net = make_network; objects = objects; calls = [] }) ≡ some w
      → get_elem? w.calls k ≡ some c
      → (length c.ran ≤ 1)
        × ((r : ReplyMsg) → c.phase ≡ replied r → r.ok ≡ true → c.ran ≡ r.reply ∷ [])
  calls_at_most_once objects es k {w} {c} h at =
      let e =
        AllExpect-at w.calls k
          (net_run-AllExpect es (record { net = make_network; objects = objects; calls = [] }) tt h)
          at in
      (ran_once c.phase c.ran e, λ r p ok. told c.phase c.ran e r p ok)
