-- ===== src/Shard/Asking.antt =====
-- How the loops of src/shardctrler/client.go end.
use spring.Common.{
  ℕ, zero, suc, ℤ, Bool, true, false, List, [], ◌∷◌, Option, none, some, ◌≡◌, refl, sym, ap, ◌∙◌,
  get_elem?, Bool-cases, inl, inr, if◌then◌else◌, ◌⊎◌,
}
use spring.Shard.Ctrler.{
  Config, CtrlerNet, QueryReply, ask_all, keep_asking, is_query_refused, query,
}

module _ {W E R : Type 0} (call : E → W → W × Option R) (wrong : R → Bool) where
  -- One of the servers has answered `r`, as the leader, and has left the world at `w'`.
  abbrev pub IsAnswer : List E → W → R → Type 0
  IsAnswer srvs w' r =
      (i : ℕ) × (srv : E) × (w : W) × (get_elem? srvs i ≡ some srv)
      × (call srv w ≡ (w', some r))
      × (wrong r ≡ false)

  -- The server answers as the leader, whenever it is asked.
  abbrev pub AlwaysLeads : E → Type 0
  AlwaysLeads srv = (w : W) → (r : R) × ((call srv w).1 ≡ some r) × (wrong r ≡ false)

  IsAnswer-later :
      (s : E) (srvs : List E) (w' : W) (r : R) → IsAnswer srvs w' r → IsAnswer (s ∷ srvs) w' r
  IsAnswer-later s srvs w' r (i, srv, w, at, e, l) = (suc i, srv, w, at, e, l)

  ask-cases :
      (o : Option R) (rest : W × Option R) (w1 w' : W) (r : R)
      → (elim o [ none ↦ rest | some reply ↦ if wrong reply then rest else (w1, some reply) ])
        ≡ (w', some r)
      → (rest ≡ (w', some r)) ⊎ ((o ≡ some r) × (wrong r ≡ false) × (w1 ≡ w'))
  ask-cases none rest w1 w' r h = inl h
  ask-cases (some reply) rest w1 w' r h = refused_or_not (wrong reply) refl h
    where
      refused_or_not :
          (b : Bool)
          → wrong reply ≡ b
          → (if b then rest else (w1, some reply)) ≡ (w', some r)
          → (rest ≡ (w', some r)) ⊎ ((some reply ≡ some r) × (wrong r ≡ false) × (w1 ≡ w'))
      refused_or_not true e h = inl h
      refused_or_not false e h = let k : reply ≡ r = cc h in inr (cc k, sym (ap wrong k) ∙ e, cc h)

  pub ask_all-IsAnswer :
      (srvs : List E) (w w' : W) (r : R)
      → ask_all call wrong srvs w ≡ (w', some r)
      → IsAnswer srvs w' r
  unfolding ask_all
  ask_all-IsAnswer [] w w' r h = absurd (cc h)
  ask_all-IsAnswer (s ∷ srvs) w w' r h =
      elim (ask-cases (call s w).1 (ask_all call wrong srvs (call s w).0) (call s w).0 w' r h) [
        | inl g ↦ IsAnswer-later s srvs w' r (ask_all-IsAnswer srvs (call s w).0 w' r g)
        | inr (e, l, k) ↦ (0, s, w, refl, cc (e, k), l)
      ]

  -- A leader in the list makes the round end with an answer.
  pub ask_all-leader :
      (srvs : List E) (i : ℕ) (srv : E) (w : W)
      → get_elem? srvs i ≡ some srv
      → AlwaysLeads srv
      → (out : W × R) × (ask_all call wrong srvs w ≡ (out.0, some out.1))
  unfolding ask_all
  ask_all-leader [] i srv w at leads = absurd (cc at)
  ask_all-leader (s ∷ srvs) zero srv w at leads =
      let e : s ≡ srv = cc at in
      let (r, a, l) = leads w in
      let a' : (call s w).1 ≡ some r = ap (λ x. (call x w).1) e ∙ a in
      (((call s w).0, r), rw (ask_all, a', l) refl)
  ask_all-leader (s ∷ srvs) (suc i) srv w at leads =
      let ((w', r), e) = ask_all-leader srvs i srv (call s w).0 at leads in
      settled (call s w).1 (call s w).0 (ask_all call wrong srvs (call s w).0) w' r e
    where
      settled :
          (o : Option R) (w1 : W) (rest : W × Option R) (w' : W) (r : R)
          → rest ≡ (w', some r)
          → (out : W × R) × ((elim o [
            | none ↦ rest
            | some reply ↦ if wrong reply then rest else (w1, some reply)
          ])
              ≡ (out.0, some out.1))
      settled none w1 rest w' r e = ((w', r), e)
      settled (some reply) w1 rest w' r e = elim (Bool-cases (wrong reply)) [
        | inl y ↦ ((w', r), rw y e)
        | inr n ↦ ((w1, reply), rw n refl)
      ]

  -- A round with an answer is the last.
  pub keep_asking-answer :
      (sleep : W → W) (srvs : List E) (n : ℕ) (w w' : W) (r : R)
      → ask_all call wrong srvs w ≡ (w', some r)
      → keep_asking call wrong sleep srvs (suc n) w ≡ (w', some r)
  unfolding keep_asking
  keep_asking-answer sleep srvs n w w' r e =
      rw (keep_asking, e) (ap (λ (x : W × Option R). (x.0, some r)) e)

  kept-cases :
      (o : Option R) (rest : W × Option R) (w1 w' : W) (r : R)
      → (elim o [ none ↦ rest | some reply ↦ (w1, some reply) ]) ≡ (w', some r)
      → (rest ≡ (w', some r)) ⊎ ((o ≡ some r) × (w1 ≡ w'))
  kept-cases none rest w1 w' r h = inl h
  kept-cases (some reply) rest w1 w' r h = inr (cc h, cc h)

  -- What a loop returns is an answer.
  pub keep_asking-IsAnswer :
      (sleep : W → W) (srvs : List E) (n : ℕ) (w w' : W) (r : R)
      → keep_asking call wrong sleep srvs n w ≡ (w', some r)
      → IsAnswer srvs w' r
  unfolding keep_asking
  keep_asking-IsAnswer sleep srvs zero w w' r h = absurd (cc h)
  keep_asking-IsAnswer sleep srvs (suc n) w w' r h =
      let round = ask_all call wrong srvs w in
      elim (kept-cases round.1 (keep_asking call wrong sleep srvs n (sleep round.0)) round.0 w' r
        h) [
          | inl g ↦ keep_asking-IsAnswer sleep srvs n (sleep round.0) w' r g
          | inr (e, k) ↦ ask_all-IsAnswer srvs w w' r (cc (e, k))
        ]

module _ {W E : Type 0} (net : CtrlerNet W E) (servers : List E) where
  -- If one of the servers answers as the leader whenever it is asked, then `Query` returns in the
  -- first round, and what it returns is the configuration with which a server of the list has
  -- answered as the leader.
  pub query_lem :
      (num : ℤ) (i : ℕ) (srv : E)
      → get_elem? servers i ≡ some srv
      → AlwaysLeads (λ s. net.query_call s (record { num = num })) is_query_refused srv
      → (rounds : ℕ) (w : W)
      → (w' : W) × (reply : QueryReply) × (query net servers (suc rounds) num w
          ≡ (w', some reply.config))
        × IsAnswer (λ s. net.query_call s (record { num = num })) is_query_refused servers w' reply
  unfolding query keep_asking
  query_lem num i srv at leads rounds w =
      let call : E → W → W × Option QueryReply = λ s. net.query_call s (record { num = num }) in
      let ((w', reply), e) = ask_all-leader call is_query_refused servers i srv w at leads in
      let kept = keep_asking-answer call is_query_refused net.sleep servers rounds w w' reply e in
      (
        w',
        reply,
        rw (query, kept) refl,
        ask_all-IsAnswer call is_query_refused servers w w' reply e,
      )

  config_of :
      (o : Option QueryReply) (c : Config)
      → (elim o [ none ↦ none | some reply ↦ some reply.config ]) ≡ some c
      → (reply : QueryReply) × (o ≡ some reply) × (reply.config ≡ c)
  config_of none c h = absurd (cc h)
  config_of (some reply) c h = (reply, refl, cc h)

  -- A configuration from `Query` is one with which a server has answered.
  pub query-config :
      (rounds : ℕ) (num : ℤ) (w : W) (c : Config)
      → (query net servers rounds num w).1 ≡ some c
      → (srv : E) × (w0 : W) × (reply : QueryReply) × ((net.query_call srv
            (record { num = num })
            w0).1
          ≡ some reply)
        × (reply.config ≡ c)
  unfolding query
  query-config rounds num w c h =
      let call : E → W → W × Option QueryReply = λ s. net.query_call s (record { num = num }) in
      let asked = keep_asking call is_query_refused net.sleep servers rounds w in
      let (reply, e, same_config) = config_of asked.1 c h in
      let (i, srv, w0, at, answer, l) =
        keep_asking-IsAnswer call is_query_refused net.sleep servers rounds w asked.0 reply
          (ap (λ (o : Option QueryReply). (asked.0, o)) e) in
      (srv, w0, reply, ap (λ (x : W × Option QueryReply). x.1) answer, same_config)
