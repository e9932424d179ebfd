-- ===== src/Raft/Harness/Links.antt =====
-- The names that connect and disconnect of src/raft/config.go enable and disable.
use spring.Common.{
  ℕ, zero, suc, ◌<◌, Bool, true, false, ◌||◌, List, [], ◌∷◌, Option, none, some, ◌==◌, ==_iff,
  if◌then◌else◌, length, get_elem?, set, ◌≡◌, ◌≢◌, inl, inr, refl, sym, ap, ◌∙◌, subst, arith,
  Bool-cases, >>=-eq-some, get_elem?-set_self,
}
use mathlib.Core.Option.{some-injective}
use spring.Labrpc.Network.{Network, admin, assign}
use spring.Raft.Harness.Rig.{Rows, on_names, off_names, row_names, name_in, column, enable_all}

abbrev pub has : ℕ → List ℕ → Bool
has e [] = false
has e (x ∷ xs) = (x == e) || has e xs

abbrev pub is_on : List Bool → ℕ → Bool
is_on [] i = false
is_on (c ∷ cs) zero = c
is_on (c ∷ cs) (suc i) = is_on cs i

-- The name of the link from server `k` to server `l`.
abbrev pub end_of : Rows → ℕ → ℕ → Option ℕ
end_of [] k l = none
end_of (row ∷ rows) zero l = name_in row l
end_of (row ∷ rows) (suc k) l = end_of rows k l

pub record IsEnabled (b : Bool) (es : List ℕ) (old new : Network) : Type 0 where
  pub ends : new.ends ≡ old.ends
  pub connections : new.connections ≡ old.connections
  pub servers : new.servers ≡ old.servers
  pub enabled : (e : ℕ) → new.enabled e ≡ (if has e es then b else old.enabled e)

pub enable_all-IsEnabled :
    (b : Bool) (es : List ℕ) (net : Network) {net' : Network}
    → enable_all b es net ≡ some net'
    → IsEnabled b es net net'
unfolding enable_all admin
enable_all-IsEnabled b [] net {net'} h =
    subst (IsEnabled b [] net) (some-injective net net' h)
      (record { ends = refl; connections = refl; servers = refl; enabled = λ e. refl })
enable_all-IsEnabled b (x ∷ es) net {net'} h =
    let next = record net { enabled = assign x b net.enabled } in
    let k : IsEnabled b es next net' = enable_all-IsEnabled b es next h in
    record {
      ends = k.ends;
      connections = k.connections;
      servers = k.servers;
      enabled = λ e. ground (arith, k.enabled e);
    }

pub on_names_sound :
    (cs : List Bool) (ns : List (Option ℕ)) (e : ℕ) {out : List ℕ}
    → on_names cs ns ≡ some out
    → has e out ≡ true
    → (j : ℕ) × (is_on cs j ≡ true) × (get_elem? ns j ≡ some (some e))
unfolding on_names
on_names_sound [] ns e {out} h a = absurd (cc (ap (has e) (some-injective [] out h) ∙ a))
on_names_sound (c ∷ cs) [] e h a = absurd (cc h)
on_names_sound (false ∷ cs) (name ∷ ns) e h a =
    let (j, on, at) = on_names_sound cs ns e h a in (suc j, on, at)
on_names_sound (true ∷ cs) (name ∷ ns) e {out} h a =
    let (x, here, h1) = >>=-eq-some name _ h in
    let (rest, more, h2) = >>=-eq-some (on_names cs ns) _ h1 in
    let a' : has e (x ∷ rest) ≡ true = ap (has e) (some-injective (x ∷ rest) out h2) ∙ a in
    elim (Bool-cases (x == e)) [
      | inl y ↦ (0, refl, ap some (here ∙ ap some ((==_iff x e).0 y)))
      | inr y ↦
          (let (j, on, at) = on_names_sound cs ns e more (ground (arith, a', y)) in (suc j, on, at))
    ]

pub on_names_complete :
    (cs : List Bool) (ns : List (Option ℕ)) (e j : ℕ) {out : List ℕ}
    → on_names cs ns ≡ some out
    → is_on cs j ≡ true
    → get_elem? ns j ≡ some (some e)
    → has e out ≡ true
unfolding on_names
on_names_complete [] ns e j h on at = absurd (cc on)
on_names_complete (c ∷ cs) [] e j h on at = absurd (cc at)
on_names_complete (false ∷ cs) (name ∷ ns) e zero h on at = absurd (cc on)
on_names_complete (false ∷ cs) (name ∷ ns) e (suc j) h on at = on_names_complete cs ns e j h on at
on_names_complete (true ∷ cs) (name ∷ ns) e zero {out} h on at =
    let (x, here, h1) = >>=-eq-some name _ h in
    let (rest, more, h2) = >>=-eq-some (on_names cs ns) _ h1 in
    let x_e : x ≡ e = some-injective x e (sym here ∙ some-injective name (some e) at) in
    sym (ap (has e) (some-injective (x ∷ rest) out h2)) ∙ ground (arith, x_e)
on_names_complete (true ∷ cs) (name ∷ ns) e (suc j) {out} h on at =
    let (x, here, h1) = >>=-eq-some name _ h in
    let (rest, more, h2) = >>=-eq-some (on_names cs ns) _ h1 in
    let below = on_names_complete cs ns e j more on at in
    sym (ap (has e) (some-injective (x ∷ rest) out h2)) ∙ ground (arith, below)

pub off_names_sound :
    (ns : List (Option ℕ)) (e : ℕ)
    → has e (off_names ns) ≡ true
    → (j : ℕ) × (get_elem? ns j ≡ some (some e))
unfolding off_names
off_names_sound [] e h = absurd (cc h)
off_names_sound (none ∷ ns) e h = let (j, at) = off_names_sound ns e h in (suc j, at)
off_names_sound (some x ∷ ns) e h = elim (Bool-cases (x == e)) [
  | inl y ↦ (0, ap (λ z. some (some z)) ((==_iff x e).0 y))
  | inr y ↦ (let (j, at) = off_names_sound ns e (ground (arith, h, y)) in (suc j, at))
]

pub off_names_complete :
    (ns : List (Option ℕ)) (e j : ℕ) → get_elem? ns j ≡ some (some e) → has e (off_names ns) ≡ true
unfolding off_names
off_names_complete [] e j at = absurd (cc at)
off_names_complete (none ∷ ns) e zero at = absurd (cc (some-injective none (some e) at))
off_names_complete (none ∷ ns) e (suc j) at = off_names_complete ns e j at
off_names_complete (some x ∷ ns) e zero at =
    let x_e : x ≡ e = some-injective x e (some-injective (some x) (some e) at) in
    ground (arith, x_e)
off_names_complete (some x ∷ ns) e (suc j) at = ground (arith, off_names_complete ns e j at)

pub row_names-at :
    (es : List ℕ) (j : ℕ) {e : ℕ}
    → get_elem? (row_names es) j ≡ some (some e)
    → get_elem? es j ≡ some e
row_names-at [] j h = absurd (cc h)
row_names-at (x ∷ es) zero {e} h = some-injective (some x) (some e) h
row_names-at (x ∷ es) (suc j) h = row_names-at es j h

pub at-row_names :
    (es : List ℕ) (j : ℕ) {e : ℕ}
    → get_elem? es j ≡ some e
    → get_elem? (row_names es) j ≡ some (some e)
at-row_names [] j h = absurd (cc h)
at-row_names (x ∷ es) zero h = ap some h
at-row_names (x ∷ es) (suc j) h = at-row_names es j h

pub column-at :
    (i : ℕ) (rows : Rows) (j : ℕ) {e : ℕ}
    → get_elem? (column i rows) j ≡ some (some e)
    → end_of rows j i ≡ some e
column-at i [] j h = absurd (cc h)
column-at i (row ∷ rows) zero {e} h = some-injective (name_in row i) (some e) h
column-at i (row ∷ rows) (suc j) h = column-at i rows j h

pub at-column :
    (i : ℕ) (rows : Rows) (j : ℕ) {e : ℕ}
    → end_of rows j i ≡ some e
    → get_elem? (column i rows) j ≡ some (some e)
at-column i [] j h = absurd (cc h)
at-column i (row ∷ rows) zero h = ap some h
at-column i (row ∷ rows) (suc j) h = at-column i rows j h

pub end_of-at :
    (rows : Rows) (k l : ℕ) {row : Option (List ℕ)}
    → get_elem? rows k ≡ some row
    → end_of rows k l ≡ name_in row l
end_of-at [] k l h = absurd (cc h)
end_of-at (r ∷ rows) zero l {row} h = ap (λ x. name_in x l) (some-injective r row h)
end_of-at (r ∷ rows) (suc k) l h = end_of-at rows k l h

pub end_of-set_self :
    (rows : Rows) (i l : ℕ) (row : Option (List ℕ))
    → i < length rows
    → end_of (set rows i row) i l ≡ name_in row l
end_of-set_self rows i l row h = end_of-at (set rows i row) i l (get_elem?-set_self rows i row h)

pub end_of-set_ne :
    (rows : Rows) (i k l : ℕ) (row : Option (List ℕ))
    → i ≢ k
    → end_of (set rows i row) k l ≡ end_of rows k l
end_of-set_ne [] i k l row ne = refl
end_of-set_ne (r ∷ rows) zero zero l row ne = absurd (ne refl)
end_of-set_ne (r ∷ rows) zero (suc k) l row ne = refl
end_of-set_ne (r ∷ rows) (suc i) zero l row ne = refl
end_of-set_ne (r ∷ rows) (suc i) (suc k) l row ne =
    end_of-set_ne rows i k l row (λ e. ne (ap suc e))

pub is_on-set_self : (cs : List Bool) (i : ℕ) (b : Bool) → i < length cs → is_on (set cs i b) i ≡ b
is_on-set_self [] i b h = absurd (omega (arith, h))
is_on-set_self (c ∷ cs) zero b h = refl
is_on-set_self (c ∷ cs) (suc i) b h = is_on-set_self cs i b (omega (arith, h))

pub is_on-set_ne : (cs : List Bool) (i j : ℕ) (b : Bool) → i ≢ j → is_on (set cs i b) j ≡ is_on cs j
is_on-set_ne [] i j b ne = refl
is_on-set_ne (c ∷ cs) zero zero b ne = absurd (ne refl)
is_on-set_ne (c ∷ cs) zero (suc j) b ne = refl
is_on-set_ne (c ∷ cs) (suc i) zero b ne = refl
is_on-set_ne (c ∷ cs) (suc i) (suc j) b ne = is_on-set_ne cs i j b (λ e. ne (ap suc e))
