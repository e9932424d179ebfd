-- ===== src/Mr/Order.antt =====
-- The order of the keys in src/main/mrsequential.go.
use spring.Common.{true, false, [], ◌∷◌, ◌≡◌, refl, arith, Bytes, same}
use spring.Mr.Sequential.{less_bytes}

pub less_bytes_irrefl : (a : Bytes) → less_bytes a a ≡ false
unfolding less_bytes
less_bytes_irrefl [] = refl
less_bytes_irrefl (x ∷ xs) = ground (arith, less_bytes_irrefl xs)

pub less_bytes_total :
    (a b : Bytes) → same a b ≡ false → less_bytes a b ≡ false → less_bytes b a ≡ true
unfolding less_bytes
less_bytes_total [] [] d h = absurd (cc d)
less_bytes_total [] (y ∷ ys) d h = absurd (cc h)
less_bytes_total (x ∷ xs) [] d h = refl
less_bytes_total (x ∷ xs) (y ∷ ys) d h = ground (arith, less_bytes_total xs ys)

pub less_bytes_trans :
    (a b c : Bytes) → less_bytes a b ≡ true → less_bytes c b ≡ false → less_bytes a c ≡ true
unfolding less_bytes
less_bytes_trans [] [] c h g = absurd (cc h)
less_bytes_trans [] (y ∷ ys) [] h g = absurd (cc g)
less_bytes_trans [] (y ∷ ys) (z ∷ zs) h g = refl
less_bytes_trans (x ∷ xs) [] c h g = absurd (cc h)
less_bytes_trans (x ∷ xs) (y ∷ ys) [] h g = absurd (cc g)
less_bytes_trans (x ∷ xs) (y ∷ ys) (z ∷ zs) h g = ground (arith, less_bytes_trans xs ys zs)
