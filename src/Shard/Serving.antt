-- ===== src/Shard/Serving.antt =====
-- The loops of src/shardkv/client.go: what they return, and that they do not panic.
use spring.Common.{
  ℕ, zero, suc, ◌<◌, List, [], ◌∷◌, Option, none, some, ◌≡◌, refl, sym, ap, ◌∙◌, get_elem?,
  get_elem?-some, length, inl, inr, ◌⊎◌, arith, Bytes, >>=-eq-some,
}
use native.Mathlib.Nat.{mod-lt}
use spring.Shard.Ctrler.{n_shards, Config}
use spring.Shard.Clerk.{
  key2shard, Verdict, returns, leaves, goes_on, try_group, servers_for, try_config, Progress,
  has_returned, waits_for_config, goes_round, serve_loop, act, next,
}

pub key2shard_lt : (key : Bytes) → key2shard key < n_shards
unfolding key2shard
key2shard_lt [] = omega arith
key2shard_lt (c ∷ key) = mod-lt c (omega arith)

servers_for-total :
    (key : Bytes) (config : Config)
    → length config.shards ≡ n_shards
    → (servers : List Bytes) × (servers_for key config ≡ some servers)
unfolding servers_for
servers_for-total key config l =
    let (gid, e) =
      get_elem?-some config.shards (key2shard key) (omega (arith, key2shard_lt key, l)) in
    (elim (config.groups gid) [ none ↦ [] | some servers ↦ servers ], rw e refl)

module _ {W S Reply R : Type 0} (call : S → W → W × Option Reply)
    (verdict : Option Reply → Verdict R) where
  -- A server of the list has given the answer on which `r` is returned.
  abbrev pub IsServed : List S → W → R → Type 0
  IsServed servers w' r =
      (i : ℕ) × (s : S) × (w : W) × (get_elem? servers i ≡ some s)
      × ((call s w).0 ≡ w')
      × (verdict (call s w).1 ≡ returns r)

  verdict-cases :
      (v : Verdict R) (rest : W × Option R) (w1 w' : W) (r : R)
      → act v w1 rest ≡ (w', some r)
      → (rest ≡ (w', some r)) ⊎ ((v ≡ returns r) × (w1 ≡ w'))
  verdict-cases (returns r') rest w1 w' r h = let k : r' ≡ r = cc h in inr (ap returns k, cc h)
  verdict-cases leaves rest w1 w' r h = absurd (cc h)
  verdict-cases goes_on rest w1 w' r h = inl h

  pub try_group-IsServed :
      (servers : List S) (w w' : W) (r : R)
      → try_group call verdict servers w ≡ (w', some r)
      → IsServed servers w' r
  unfolding try_group
  try_group-IsServed [] w w' r h = absurd (cc h)
  try_group-IsServed (s ∷ servers) w w' r h =
      elim (verdict-cases (verdict (call s w).1) (try_group call verdict servers (call s w).0)
        (call s w).0 w' r h) [
          | inl g ↦
              (let (i, t, w0, at, e, v) = try_group-IsServed servers (call s w).0 w' r g in
                (suc i, t, w0, at, e, v))
          | inr (v, e) ↦ (0, s, w, refl, e, v)
        ]

module _ {W Reply R : Type 0} (call : Bytes → W → W × Option Reply)
    (verdict : Option Reply → Verdict R) (sleep : W → W) (latest : W → W × Option Config)
    (key : Bytes) where
  -- The configuration with which the loop has started, or one that the controller has given.
  abbrev pub IsKnown : Config → Config → Type 0
  IsKnown config c = (c ≡ config) ⊎ ((w : W) × (w' : W) × (latest w ≡ (w', some c)))

  next-returned :
      (result : Option R) (w1 : W) (fetched : W × Option Config)
      (go : Config → W → Option (W × Progress R)) (w' : W) (r : R)
      → next result w1 fetched go ≡ some (w', has_returned r)
      → ((result ≡ some r) × (w1 ≡ w'))
        ⊎ ((c : Config) × (fetched.1 ≡ some c) × (go c fetched.0 ≡ some (w', has_returned r)))
  next-returned (some r') w1 fetched go w' r h = inl (cc h, cc h)
  next-returned none w1 (w2, none) go w' r h = absurd (cc h)
  next-returned none w1 (w2, some c) go w' r h = inr (c, refl, h)

  -- What is known from the configuration that was fetched has been fetched.
  fetched :
      (config c d : Config) (w : W)
      → (latest w).1 ≡ some c
      → IsKnown c d
      → (w0 : W) × (w' : W) × (latest w0 ≡ (w', some d))
  fetched config c d w k (inl q) =
      (w, (latest w).0, ap (λ (o : Option Config). ((latest w).0, o)) (k ∙ ap some (sym q)))
  fetched config c d w k (inr later) = later

  -- A result is the answer of a server that a known configuration gives for the key.
  pub serve_loop-returned :
      (n : ℕ) (config : Config) (w w' : W) (r : R)
      → serve_loop call verdict sleep latest key n config w ≡ some (w', has_returned r)
      → (c : Config) × (servers : List Bytes) × IsKnown config c
        × (servers_for key c ≡ some servers)
        × IsServed call verdict servers w' r
  unfolding serve_loop try_config
  serve_loop-returned zero config w w' r h = absurd (cc h)
  serve_loop-returned (suc n) config w w' r h =
      let ((w1, result), e, h1) = >>=-eq-some (try_config call verdict key config w) _ h in
      let (servers, es, e1) = >>=-eq-some (servers_for key config) _ e in
      elim (next-returned result w1 (latest (sleep w1)) (serve_loop call verdict sleep latest key n)
        w' r h1) [
          | inl (k, l) ↦
              (let outcome : try_group call verdict servers w ≡ (w1, result) = cc e1 in
                (
                  config,
                  servers,
                  inl refl,
                  es,
                  try_group-IsServed call verdict servers w w' r (cc (outcome, k, l)),
                ))
          | inr (c, k, g) ↦
              (let (d, servers', known, es', served) =
                  serve_loop-returned n c (latest (sleep w1)).0 w' r g in
                (d, servers', inr (fetched config c d (sleep w1) k known), es', served))
        ]

  -- With configurations of the declared length, no round panics.
  pub serve_loop-total :
      ((w : W) (c : Config) → (latest w).1 ≡ some c → length c.shards ≡ n_shards)
      → (n : ℕ) (config : Config) (w : W) → length config.shards ≡ n_shards
      → (out : W × Progress R) × (serve_loop call verdict sleep latest key n config w ≡ some out)
  unfolding serve_loop try_config
  serve_loop-total lengths zero config w l = ((w, goes_round config), refl)
  serve_loop-total lengths (suc n) config w l =
      let (servers, e) = servers_for-total key config l in
      let tried = try_group call verdict servers w in
      let (out, f) =
        next-total tried.1 tried.0 (latest (sleep tried.0))
          (serve_loop call verdict sleep latest key n)
          (λ c w' k. serve_loop-total lengths n c w' (lengths (sleep tried.0) c k)) in
      (out, rw e f)
    where
      next-total :
          (result : Option R) (w1 : W) (answer : W × Option Config)
          (go : Config → W → Option (W × Progress R))
          → ((c : Config) (w : W)
              → answer.1 ≡ some c
              → (out : W × Progress R) × (go c w ≡ some out))
          → (out : W × Progress R) × (next result w1 answer go ≡ some out)
      next-total (some r) w1 answer go total = ((w1, has_returned r), refl)
      next-total none w1 (w2, none) go total = ((w2, waits_for_config), refl)
      next-total none w1 (w2, some c) go total = total c w2 refl
