-- ===== src/Raft/Logs/Sound.antt =====
-- Logs of src/raft/raft.go in which every entry stands where the leader of its term has put it.
use spring.Common.{
  ℕ, zero, suc, ◌<◌, ◌≤◌, ◌≡◌, ◌⊎◌, inl, inr, refl, sym, ap, ◌∙◌, subst, some, arith, List, [], ◌∷◌,
  ◌++◌, take, drop, get_elem?, length, get_elem?-take, get_elem?-append_left, lt-length,
}
use spring.Raft.Types.{Log}
use spring.Raft.Node.{Ballot}
use spring.Raft.Node.OneVote.{Voted}

-- The entry that `Make` puts at index 0.
abbrev pub blank : Log
blank = record { log_term = 0; command = 0 }

-- The log of the leader of each term, when it was longest.
abbrev pub Led : Type 0
Led = ℕ → List Log

abbrev pub Won : List Ballot → ℕ → Type 0
Won ws t = (c : ℕ) × Voted t c ws

-- Every entry was appended by the leader that has won its term, and the leader had what stands
-- before it.
pub record IsLed (ws : List Ballot) (led : Led) (l : List Log) : Type 0 where
  pub good :
      (j : ℕ) (e : Log)
      → 0 < j
      → get_elem? l j ≡ some e
      → take (suc j) l ≡ take (suc j) (led e.log_term)
  pub won : (j : ℕ) (e : Log) → 0 < j → get_elem? l j ≡ some e → Won ws e.log_term
  pub head : get_elem? l 0 ≡ some blank

-- How leaders' logs change: a term that nobody had won may get its first log, and a log may get
-- longer.
abbrev pub Grown : List Ballot → Led → Led → Type 0
Grown ws led led' =
    (t : ℕ) → (led' t ≡ led t) ⊎ ((Won ws t → ⊥) ⊎ ((es : List Log) × (led' t ≡ led t ++ es)))

module _ {ℓ} {A : Type ℓ} where
  pub take-take : (j k : ℕ) (l : List A) → j ≤ k → take j (take k l) ≡ take j l
  take-take zero k l h = refl
  take-take (suc j) zero l h = absurd (omega (arith, h))
  take-take (suc j) (suc k) [] h = refl
  take-take (suc j) (suc k) (x ∷ l) h = ap (λ r. x ∷ r) (take-take j k l (omega (arith, h)))

  pub take-append : (j : ℕ) (xs ys : List A) → j ≤ length xs → take j (xs ++ ys) ≡ take j xs
  take-append zero xs ys h = refl
  take-append (suc j) [] ys h = absurd (omega (arith, h))
  take-append (suc j) (x ∷ xs) ys h = ap (λ r. x ∷ r) (take-append j xs ys (omega (arith, h)))

  pub take-drop : (j : ℕ) (l : List A) → take j l ++ drop j l ≡ l
  take-drop zero l = refl
  take-drop (suc j) [] = refl
  take-drop (suc j) (x ∷ l) = ap (λ r. x ∷ r) (take-drop j l)

  pub take-one : (l : List A) (x : A) → get_elem? l 0 ≡ some x → take 1 l ≡ x ∷ []
  take-one [] x h = absurd (cc h)
  take-one (y ∷ l) x h = let e : y ≡ x = cc h in ap (λ z. z ∷ []) e

  pub get_elem?-of_take :
      (k : ℕ) (l : List A) (j : ℕ) {x : A}
      → get_elem? (take k l) j ≡ some x
      → (j < k) × (get_elem? l j ≡ some x)
  get_elem?-of_take zero l j h = absurd (cc h)
  get_elem?-of_take (suc k) [] j h = absurd (cc h)
  get_elem?-of_take (suc k) (y ∷ l) zero h = (omega arith, h)
  get_elem?-of_take (suc k) (y ∷ l) (suc j) h =
      let (lt, e) = get_elem?-of_take k l j h in (omega (arith, lt), e)

  -- Lists that agree to an index agree at it.
  pub get_elem?-agree :
      (j : ℕ) (xs ys : List A) {x : A}
      → take (suc j) xs ≡ take (suc j) ys
      → get_elem? xs j ≡ some x
      → get_elem? ys j ≡ some x
  get_elem?-agree j xs ys h at =
      sym (get_elem?-take (suc j) ys j (omega arith))
      ∙ ap (λ l. get_elem? l j) (sym h)
      ∙ get_elem?-take (suc j) xs j (omega arith)
      ∙ at

module _ (ws : List Ballot) (led : Led) where
  pub IsLed-take : (k : ℕ) (l : List Log) → 0 < k → IsLed ws led l → IsLed ws led (take k l)
  IsLed-take k l pos_k s = record {
    good = λ j e pj at.
        let (lt, at') = get_elem?-of_take k l j at in take-take (suc j) k l lt ∙ s.good j e pj at';
    won = λ j e pj at. let (lt, at') = get_elem?-of_take k l j at in s.won j e pj at';
    head = get_elem?-take k l 0 pos_k ∙ s.head;
  }

  -- Two logs with entries of one term at an index are the same up to it.
  pub IsLed-agree :
      (i : ℕ) (xs ys : List Log) (x y : Log)
      → IsLed ws led xs
      → IsLed ws led ys
      → get_elem? xs i ≡ some x
      → get_elem? ys i ≡ some y
      → x.log_term ≡ y.log_term
      → take (suc i) xs ≡ take (suc i) ys
  IsLed-agree zero xs ys x y sx sy ax ay e =
      take-one xs blank sx.head ∙ sym (take-one ys blank sy.head)
  IsLed-agree (suc i) xs ys x y sx sy ax ay e =
      sx.good (suc i) x (omega arith) ax
      ∙ ap (λ t. take (suc (suc i)) (led t)) e
      ∙ sym (sy.good (suc i) y (omega arith) ay)

  -- What is cut behind such an entry and goes on as the other is the other.
  pub IsLed-joined :
      (i : ℕ) (xs ys : List Log) (x y : Log)
      → IsLed ws led xs
      → IsLed ws led ys
      → get_elem? xs i ≡ some x
      → get_elem? ys i ≡ some y
      → x.log_term ≡ y.log_term
      → take (suc i) xs ++ drop (suc i) ys ≡ ys
  IsLed-joined i xs ys x y sx sy ax ay e =
      ap (λ l. l ++ drop (suc i) ys) (IsLed-agree i xs ys x y sx sy ax ay e) ∙ take-drop (suc i) ys

  pub IsLed-Grown :
      (led' : Led) (l : List Log) → Grown ws led led' → IsLed ws led l → IsLed ws led' l
  IsLed-Grown led' l grown s = record {
    good = λ j e pj at.
        let here = s.good j e pj at in
        here
        ∙ grown_at j e.log_term (s.won j e pj at) (get_elem?-agree j l (led e.log_term) here at)
            (grown e.log_term);
    won = s.won;
    head = s.head;
  }
    where
      grown_at :
          (j t : ℕ) {e : Log}
          → Won ws t
          → get_elem? (led t) j ≡ some e
          → (led' t ≡ led t) ⊎ ((Won ws t → ⊥) ⊎ ((es : List Log) × (led' t ≡ led t ++ es)))
          → take (suc j) (led t) ≡ take (suc j) (led' t)
      grown_at j t w at (inl same) = ap (take (suc j)) (sym same)
      grown_at j t w at (inr (inl fresh)) = absurd (fresh w)
      grown_at j t w at (inr (inr (es, longer))) =
          sym (take-append (suc j) (led t) es (omega (arith, lt-length (led t) j at)))
          ∙ ap (take (suc j)) (sym longer)

snoc-cases :
    (l : List Log) (e : Log) (j : ℕ) {x : Log}
    → get_elem? (l ++ (e ∷ [])) j ≡ some x
    → ((j < length l) × (get_elem? l j ≡ some x)) ⊎ (e ≡ x)
snoc-cases [] e zero h = inr (cc h)
snoc-cases [] e (suc j) h = absurd (cc h)
snoc-cases (y ∷ l) e zero h = inl (omega arith, h)
snoc-cases (y ∷ l) e (suc j) h = elim (snoc-cases l e j h) [
  | inl (lt, at) ↦ inl (omega (arith, lt), at)
  | inr k ↦ inr k
]

-- A leader appends an entry to its log, which is the one of its term.
pub IsLed-append :
    (ws : List Ballot) (led : Led) (l : List Log) (e : Log)
    → IsLed ws led l
    → led e.log_term ≡ l ++ (e ∷ [])
    → Won ws e.log_term
    → IsLed ws led (l ++ (e ∷ []))
IsLed-append ws led l e s le w = record {
  good = λ j x pj at. elim (snoc-cases l e j at) [
    | inl (lt, at') ↦ take-append (suc j) l (e ∷ []) lt ∙ s.good j x pj at'
    | inr k ↦ ap (take (suc j)) (sym (subst (λ (y : Log). led y.log_term ≡ l ++ (e ∷ [])) k le))
  ];
  won = λ j x pj at. elim (snoc-cases l e j at) [
    | inl (lt, at') ↦ s.won j x pj at'
    | inr k ↦ subst (λ (y : Log). Won ws y.log_term) k w
  ];
  head = get_elem?-append_left l (e ∷ []) 0 (lt-length l 0 s.head) ∙ s.head;
}

pub IsLed-wins :
    (ws ws' : List Ballot) (led : Led) (l : List Log)
    → ((t : ℕ) → Won ws t → Won ws' t)
    → IsLed ws led l
    → IsLed ws' led l
IsLed-wins ws ws' led l more s = record {
  good = s.good;
  won = λ j e pj at. more e.log_term (s.won j e pj at);
  head = s.head;
}
