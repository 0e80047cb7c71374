-- ===== src/Pools/Tally.antt =====
-- Sums over the lists of 08-concurrency/examples/02-workerpool/main.go and its siblings.
use go_handbook_for_software.Base.{
  ℕ, zero, suc, ◌+◌, ◌*◌, ◌≤◌, ◌≡◌, refl, ap, List, [], ◌∷◌, ◌++◌, arith, length, replicate,
}
use go_handbook_for_software.Pools.{tally}

pub tally-append :
    {A : Type 0} (f : A → ℕ) (xs ys : List A) → tally f (xs ++ ys) ≡ tally f xs + tally f ys
unfolding tally
tally-append f [] ys = omega arith
tally-append f (x ∷ xs) ys = omega (arith, tally-append f xs ys)

-- the tally after the element in the middle has been replaced
pub tally-replace :
    {A : Type 0} (f : A → ℕ) (ws a b : List A) (x y : A)
    → ws ≡ a ++ x ∷ b
    → tally f (a ++ y ∷ b) + f x ≡ tally f ws + f y
unfolding tally
tally-replace f ws a b x y e =
    omega (arith, ap (tally f) e, tally-append f a (x ∷ b), tally-append f a (y ∷ b))

pub tally-replicate : {A : Type 0} (f : A → ℕ) (x : A) (n : ℕ) → tally f (replicate n x) ≡ n * f x
unfolding tally
tally-replicate f x zero = ground arith
tally-replicate f x (suc n) = ground (arith, tally-replicate f x n)

pub tally-length : {A : Type 0} (xs : List A) → tally (λ _. 1) xs ≡ length xs
unfolding tally
tally-length [] = refl
tally-length (x ∷ xs) = omega (arith, tally-length xs)

pub tally-member :
    {A : Type 0} (f : A → ℕ) (ws a b : List A) (x : A) → ws ≡ a ++ x ∷ b → f x ≤ tally f ws
unfolding tally
tally-member f ws a b x e = omega (arith, ap (tally f) e, tally-append f a (x ∷ b))
