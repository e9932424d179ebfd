-- ===== src/Kvsrv/Calls.antt =====
-- The loop `for !Call(...) {}` of src/kvsrv/client.go: a request whose effect a repetition does
-- not change is handled once, at one instant between the requests of others.
use spring.Common.{
  ℕ, Bool, true, false, List, [], ◌∷◌, ◌++◌, Option, some, Bytes, ◌≡◌, refl, ◌||◌, ◌==◌, arith, ap,
  sym, subst, ◌∙◌, Option-cases, inl, inr,
}
use spring.Kvsrv.Server.{KvServer, PutAppendArgs, put, append, clear, write, value_at}
use mathlib.Core.List.{append_assoc, append-nil}
use spring.Kvsrv.Clerk.{
  Request, get_request, put_request, append_request, clear_request, Round, lost, unanswered,
  answered, retry, serve, serve_all,
}

-- The requests of others that the server handles while the loop runs.
unfoldable pub heard : List Round → List Request
heard [] = []
heard ((others, answered) ∷ rounds) = others
heard ((others, lost) ∷ rounds) = others ++ heard rounds
heard ((others, unanswered) ∷ rounds) = others ++ heard rounds

-- Some call returns true.
unfoldable pub gets_through : List Round → Bool
gets_through [] = false
gets_through ((others, answered) ∷ rounds) = true
gets_through ((others, lost) ∷ rounds) = gets_through rounds
gets_through ((others, unanswered) ∷ rounds) = gets_through rounds

-- A request that writes or clears the cached reply of a number.
unfoldable pub touches : ℕ → Request → Bool
touches n (get_request args) = false
touches n (put_request args) = args.op_reg == n
touches n (append_request args) = args.op_reg == n
touches n (clear_request args) = args.op_reg == n

unfoldable pub mentions : ℕ → List Request → Bool
unfolding touches
mentions n [] = false
mentions n (r ∷ rs) = touches n r || mentions n rs

pub serve_all-append :
    (xs ys : List Request) (kv : KvServer)
    → serve_all (xs ++ ys) kv ≡ serve_all ys (serve_all xs kv)
unfolding serve_all
serve_all-append [] ys kv = refl
serve_all-append (x ∷ xs) ys kv = serve_all-append xs ys (serve x kv).0

pub mentions-append :
    (n : ℕ) (xs ys : List Request)
    → mentions n (xs ++ ys) ≡ false
    → (mentions n xs ≡ false) × (mentions n ys ≡ false)
unfolding mentions
mentions-append n [] ys h = (refl, h)
mentions-append n (x ∷ xs) ys h =
    let (hx, hy) = mentions-append n xs ys (ground (arith, h)) in (ground (arith, h, hx), hy)

write-cache :
    (n : ℕ) (args : PutAppendArgs) (new : Bytes) (kv : KvServer)
    → (args.op_reg == n) ≡ false
    → (write args new kv).0.op_cache n ≡ kv.op_cache n
unfolding write
write-cache n args new kv h = rw h refl

-- The cached reply of a number that a request does not mention stays.
serve-cache :
    (n : ℕ) (r : Request) (kv : KvServer)
    → touches n r ≡ false
    → (serve r kv).0.op_cache n ≡ kv.op_cache n
unfolding serve touches put append clear
serve-cache n (get_request args) kv h = refl
serve-cache n (put_request args) kv h = elim (Option-cases (kv.op_cache args.op_reg)) [
  | inl e ↦ rw (e, serve, put) (write-cache n args args.value kv h)
  | inr (v, e) ↦ rw (e, serve, put) refl
]
serve-cache n (append_request args) kv h = elim (Option-cases (kv.op_cache args.op_reg)) [
  | inl e ↦
      rw (e, serve, append) (write-cache n args (value_at args.key kv.data_map ++ args.value) kv h)
  | inr (v, e) ↦ rw (e, serve, append) refl
]
serve-cache n (clear_request args) kv h = rw (h, clear, serve) refl

pub serve_all-cache :
    (n : ℕ) (rs : List Request) (kv : KvServer)
    → mentions n rs ≡ false
    → (serve_all rs kv).op_cache n ≡ kv.op_cache n
unfolding serve_all mentions
serve_all-cache n [] kv h = refl
serve_all-cache n (r ∷ rs) kv h =
    serve_all-cache n rs (serve r kv).0 (ground (arith, h)) ∙ serve-cache n r kv (ground (arith, h))

-- The loop was handled as one request `r`, between `before` and `after`, and got its reply.
unfoldable pub Once : Request → List Round → KvServer → KvServer × Option Bytes → Type 0
Once r rounds kv out =
    (before : List Request) × (after : List Request) × (before ++ after ≡ heard rounds)
    × (out ≡ (serve_all (before ++ (r ∷ after)) kv, some (serve r (serve_all before kv)).1))

-- `Before` holds of the cached reply until the request is handled, `After v` from then on.
module _ (r : Request) (n : ℕ) (Before : Option Bytes → Type 0)
    (After : Bytes → Option Bytes → Type 0)
    (first : (kv : KvServer)
      → Before (kv.op_cache n)
      → After (serve r kv).1 ((serve r kv).0.op_cache n))
    (again : (kv : KvServer) (v : Bytes) → After v (kv.op_cache n) → serve r kv ≡ (kv, v)) where
  After-kept :
      (rs : List Request) (kv : KvServer) (v : Bytes)
      → mentions n rs ≡ false
      → After v (kv.op_cache n)
      → After v ((serve_all rs kv).op_cache n)
  After-kept rs kv v h = subst (After v) (sym (serve_all-cache n rs kv h))

  retry_again :
      (rounds : List Round) (kv : KvServer) (v : Bytes)
      → After v (kv.op_cache n)
      → mentions n (heard rounds) ≡ false
      → gets_through rounds ≡ true
      → retry r rounds kv ≡ (serve_all (heard rounds) kv, some v)
  unfolding retry heard gets_through
  retry_again [] kv v a h d = absurd (cc d)
  retry_again ((os, answered) ∷ rounds) kv v a h d =
      let e = again (serve_all os kv) v (After-kept os kv v h a) in ap (λ s. (s.0, some s.1)) e
  retry_again ((os, lost) ∷ rounds) kv v a h d =
      let (ho, hr) = mentions-append n os (heard rounds) h in
      rw (serve_all-append os (heard rounds) kv)
        (retry_again rounds (serve_all os kv) v (After-kept os kv v ho a) hr d)
  retry_again ((os, unanswered) ∷ rounds) kv v a h d =
      let (ho, hr) = mentions-append n os (heard rounds) h in
      let a' = After-kept os kv v ho a in
      rw (serve_all-append os (heard rounds) kv, again (serve_all os kv) v a')
        (retry_again rounds (serve_all os kv) v a' hr d)

  pub retry-Once :
      (rounds : List Round) (kv : KvServer)
      → Before (kv.op_cache n)
      → mentions n (heard rounds) ≡ false
      → gets_through rounds ≡ true
      → Once r rounds kv (retry r rounds kv)
  unfolding Once retry heard gets_through serve_all
  retry-Once [] kv b h d = absurd (cc d)
  retry-Once ((os, answered) ∷ rounds) kv b h d =
      (os, [], append-nil os, rw (serve_all-append os (r ∷ []) kv) refl)
  retry-Once ((os, lost) ∷ rounds) kv b h d =
      let (ho, hr) = mentions-append n os (heard rounds) h in
      let b' = subst Before (sym (serve_all-cache n os kv ho)) b in
      let (before, after, split, eq) = retry-Once rounds (serve_all os kv) b' hr d in
      (
        os ++ before,
        after,
        append_assoc os before after ∙ ap (λ l. os ++ l) split,
        eq
            ∙ (rw
                (
                  append_assoc os before (r ∷ after),
                  serve_all-append os (before ++ (r ∷ after)) kv,
                  serve_all-append os before kv,
                )
                refl),
      )
  retry-Once ((os, unanswered) ∷ rounds) kv b h d =
      let (ho, hr) = mentions-append n os (heard rounds) h in
      let b' = subst Before (sym (serve_all-cache n os kv ho)) b in
      (
        os,
        heard rounds,
        refl,
        rw (serve_all-append os (r ∷ heard rounds) kv) (
            retry_again rounds (serve r (serve_all os kv)).0 (serve r (serve_all os kv)).1
              (first (serve_all os kv) b') hr d),
      )
