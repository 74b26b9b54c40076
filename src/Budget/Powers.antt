-- ===== src/Budget/Powers.antt =====
-- Powers of ten and the numbers that digits spell.
use native.Mathlib.Nat.{pow-suc, pow-le-pow_right}
use actenon_permit.Base.{
  ℕ, zero, suc, ◌+◌, ◌*◌, ◌^◌, ◌≤◌, ◌<◌, ◌≡◌, List, [], ◌∷◌, length, All, arith,
}
use actenon_permit.Budget.{joined}

pub pow-add : (a b : ℕ) → 10 ^ (a + b) ≡ 10 ^ a * 10 ^ b
pow-add zero b = let e : zero + b ≡ b = omega arith in rw e (omega arith)
pow-add (suc a) b =
    let e : suc a + b ≡ suc (a + b) = omega arith in
    rw (e, pow-suc, pow-suc, pow-add a b) (omega arith)

pub one-le-pow : (a : ℕ) → 1 ≤ 10 ^ a
one-le-pow a = pow-le-pow_right {n = 10} (omega arith) {i = 0} {j = a} (omega arith)

pub pow_mono : {a b : ℕ} → a ≤ b → 10 ^ a ≤ 10 ^ b
pow_mono h = pow-le-pow_right {n = 10} (omega arith) h

abbrev pub IsDigits : List ℕ → Type 0
IsDigits ds = All (λ d. d < 10) ds

pub joined-lt : (acc : ℕ) (ds : List ℕ) → IsDigits ds → joined acc ds < (acc + 1) * 10 ^ length ds
unfolding joined
joined-lt acc [] h = omega arith
joined-lt acc (d ∷ ds) h = rw (pow-suc 10 (length ds)) (go (joined-lt (acc * 10 + d) ds h.1))
  where
    go :
        joined (acc * 10 + d) ds < (acc * 10 + d + 1) * 10 ^ length ds
        → joined (acc * 10 + d) ds < (acc + 1) * (10 ^ length ds * 10)
    go p = grind (arith, h.0)

pub le-joined : (acc : ℕ) (ds : List ℕ) → acc * 10 ^ length ds ≤ joined acc ds
unfolding joined
le-joined acc [] = omega arith
le-joined acc (d ∷ ds) = rw (pow-suc 10 (length ds)) (grind (arith, le-joined (acc * 10 + d) ds))
