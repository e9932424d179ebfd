-- ===== src/Labrpc/Network.antt =====
-- The network of src/labrpc/labrpc.go. Names and pointers are numbers: `servers` gives the pointer
-- of the server that has a name. `none` is `log.Fatalf`. A delay is the time between two steps.
use spring.Common.{
  ℕ, ◌+◌, ◌%◌, ◌^◌, Bool, true, false, not, ◌&&◌, ◌||◌, List, [], ◌∷◌, ◌++◌, Option, none, some,
  ◌==◌, if◌then◌else◌, length, get_elem?, set, ◌>>=◌, Bytes,
}
use spring.Labrpc.Server.{ReqMsg, ReplyMsg, Server, server_dispatch}

-- `m[k] = v`, for a map whose missing keys read as a zero value.
abbrev pub assign {ℓ} : {A : Type ℓ} → ℕ → A → (ℕ → A) → ℕ → A
assign k v m j = if k == j then v else m j

pub record Network : Type 0 where
  pub reliable : Bool
  pub long_delays : Bool
  pub long_reordering : Bool
  pub ends : ℕ → Bool
  pub enabled : ℕ → Bool
  pub servers : ℕ → Option ℕ
  pub connections : ℕ → Option ℕ
  pub closed : Bool
  pub count : ℕ
  pub bytes : ℕ

abbrev pub make_network : Network
make_network = record {
  reliable = true;
  long_delays = false;
  long_reordering = false;
  ends = λ e. false;
  enabled = λ e. false;
  servers = λ s. none;
  connections = λ e. none;
  closed = false;
  count = 0;
  bytes = 0;
}

-- The methods that the tests call on the network.
pub data Admin : Type 0 where
  cleanup : Admin
  set_reliable set_long_reordering set_long_delays : Bool → Admin
  make_end delete_end : ℕ → Admin
  add_server : (servername server : ℕ) → Admin
  delete_server : ℕ → Admin
  connect : (endname servername : ℕ) → Admin
  enable : ℕ → Bool → Admin

unfoldable pub admin : Admin → Network → Option Network
admin cleanup rn = some (record rn { closed = true })
admin (set_reliable yes') rn = some (record rn { reliable = yes' })
admin (set_long_reordering yes') rn = some (record rn { long_reordering = yes' })
admin (set_long_delays yes') rn = some (record rn { long_delays = yes' })
admin (make_end e) rn =
    if rn.ends e
    then none
    else some (record rn {
      ends = assign e true rn.ends;
      enabled = assign e false rn.enabled;
      connections = assign e none rn.connections;
    })
admin (delete_end e) rn =
    if rn.ends e
    then some (record rn {
      ends = assign e false rn.ends;
      enabled = assign e false rn.enabled;
      connections = assign e none rn.connections;
    })
    else none
admin (add_server s p) rn = some (record rn { servers = assign s (some p) rn.servers })
admin (delete_server s) rn = some (record rn { servers = assign s none rn.servers })
admin (connect e s) rn = some (record rn { connections = assign e (some s) rn.connections })
admin (enable e b) rn = some (record rn { enabled = assign e b rn.enabled })

-- What `processReq` keeps of the network from its start.
pub record Route : Type 0 where
  pub servername : ℕ
  pub server : ℕ
  pub reliable : Bool

-- `readEndnameInfo`, and the test after it: where the request goes, if anywhere.
unfoldable pub read_endname_info : ℕ → Network → Option Route
read_endname_info e rn =
    if rn.enabled e
    then (do
      s ← rn.connections e
      p ← rn.servers s
      some (record { servername = s; server = p; reliable = rn.reliable }))
    else none

abbrev pub is_pointer : ℕ → Option ℕ → Bool
is_pointer p none = false
is_pointer p (some q) = q == p

unfoldable pub is_server_dead : ℕ → Route → Network → Bool
is_server_dead e to rn = not (rn.enabled e) || not (is_pointer to.server (rn.servers to.servername))

-- Where a request is. In `abandoned` the client has its failure, and the handler is still to run.
pub data Phase : Type 0 where
  arrived : Phase
  calling : Route → Phase
  returned : Route → ReplyMsg → Phase
  abandoned : Route → Phase
  replied : ReplyMsg → Phase

-- A request; `ran` keeps the replies of its handler's runs, for the proofs alone.
pub record Call : Type 0 where
  pub req : ReqMsg
  pub phase : Phase
  pub ran : List Bytes

abbrev pub failure : ReplyMsg
failure = record { ok = false; reply = [] }

pub record World (σ : Type 0) : Type 0 where
  pub net : Network
  pub objects : ℕ → Server σ
  pub calls : List Call

-- `dropped` is the outcome of the random test.
pub data Event : Type 0 where
  administers : Admin → Event
  sends : Bool → ReqMsg → Event
  begins : (k : ℕ) (dropped : Bool) → Event
  handles : (k : ℕ) → Event
  gives_up : (k : ℕ) → Event
  finishes : (k : ℕ) (dropped : Bool) → Event

-- The start of `processReq`.
abbrev pub begin_phase : Bool → Option Route → Phase
begin_phase dropped none = replied failure
begin_phase dropped (some to) = if not to.reliable && dropped then replied failure else calling to

-- Its end, when the handler has returned.
abbrev pub finish_phase : Bool → ℕ → Route → ReplyMsg → Network → Phase
finish_phase dropped e to reply rn =
    if is_server_dead e to rn || (not to.reliable && dropped)
    then replied failure
    else replied reply

abbrev pub add_bytes : ℕ → Network → Network
add_bytes n rn = record rn { bytes = (rn.bytes + n) % 2 ^ 64 }

-- Bytes are counted for a reply that is sent.
abbrev pub count_reply : Phase → Network → Network
count_reply (replied r) rn = if r.ok then add_bytes (length r.reply) rn else rn
count_reply _ rn = rn

-- After `Cleanup` the select of `Call` may take either branch: `first` is whether it sends.
abbrev pub sent_phase : Bool → Network → Phase
sent_phase first rn = if rn.closed && not first then replied failure else arrived

abbrev pub count_request : Bool → ReqMsg → Network → Network
count_request first req rn =
    if rn.closed && not first
    then rn
    else record (add_bytes (length req.args) rn) { count = (rn.count + 1) % 2 ^ 32 }

module _ {σ : Type 0} where
  abbrev pub put_call : ℕ → Call → World σ → World σ
  put_call k c w = record w { calls = set w.calls k c }

  -- The handler runs, and its reply is kept or drained.
  unfoldable pub handle : ℕ → Call → Route → (ReplyMsg → Phase) → World σ → Option (World σ)
  unfolding server_dispatch
  handle k c to next w = do
    (rs, reply) ← server_dispatch c.req (w.objects to.server)
    some (record w {
      objects = assign to.server rs w.objects;
      calls = set w.calls k (record c { phase = next reply; ran = c.ran ++ (reply.reply ∷ []) });
    })

  unfoldable pub handle_phase : ℕ → Call → Phase → World σ → Option (World σ)
  unfolding handle
  handle_phase k c (calling to) w = handle k c to (returned to) w
  handle_phase k c (abandoned to) w = handle k c to (λ r. replied failure) w
  handle_phase k c _ w = none

  unfoldable pub begin_call : ℕ → Bool → Call → Phase → World σ → Option (World σ)
  unfolding read_endname_info
  begin_call k dropped c arrived w =
      let next = begin_phase dropped (read_endname_info c.req.endname w.net) in
      some (put_call k (record c { phase = next }) w)
  begin_call k dropped c _ w = none

  unfoldable pub give_up : ℕ → Call → Phase → World σ → Option (World σ)
  unfolding is_server_dead
  give_up k c (calling to) w =
      if is_server_dead c.req.endname to w.net
      then some (put_call k (record c { phase = abandoned to }) w)
      else none
  give_up k c _ w = none

  unfoldable pub finish_call : ℕ → Bool → Call → Phase → World σ → Option (World σ)
  unfolding is_server_dead
  finish_call k dropped c (returned to reply) w =
      let next = finish_phase dropped c.req.endname to reply w.net in
      some (record (put_call k (record c { phase = next }) w) { net = count_reply next w.net })
  finish_call k dropped c _ w = none

  unfoldable pub net_step : Event → World σ → Option (World σ)
  unfolding admin begin_call handle_phase give_up finish_call
  net_step (administers a) w = do rn ← admin a w.net; some (record w { net = rn })
  net_step (sends first req) w = some (record w {
    net = count_request first req w.net;
    calls = w.calls ++ (record { req = req; phase = sent_phase first w.net; ran = [] } ∷ []);
  })
  net_step (begins k dropped) w = do c ← get_elem? w.calls k; begin_call k dropped c c.phase w
  net_step (handles k) w = do c ← get_elem? w.calls k; handle_phase k c c.phase w
  net_step (gives_up k) w = do c ← get_elem? w.calls k; give_up k c c.phase w
  net_step (finishes k dropped) w = do c ← get_elem? w.calls k; finish_call k dropped c c.phase w

  unfoldable pub net_run : List Event → World σ → Option (World σ)
  unfolding net_step
  net_run [] w = some w
  net_run (e ∷ es) w = do w' ← net_step e w; net_run es w'
