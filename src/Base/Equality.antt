-- ===== src/Base/Equality.antt =====
-- Equality tests as an interface, and the set operations of Python that need no more than that.
use Prim.Native.Nat.{ℕ}
use mathlib.Core.Path.{◌≡◌, refl}
use mathlib.Core.Logic.{◌↔◌}
use mathlib.Core.Bool.{Bool, true, false, ◌&&◌, ◌||◌}
use mathlib.Core.List.{List, [], ◌∷◌}
use native.Mathlib.Omega.{arith}
use actenon_permit.Base.Tests.{◌==◌, ==_iff}

pub record Eq {ℓ} (A : Type ℓ) : Type ℓ where
  pub beq : A → A → Bool
  pub beq_iff : (a b : A) → (beq a b ≡ true) ↔ (a ≡ b)

instance abbrev pub nat_eq : Eq ℕ
nat_eq = record { beq = ◌==◌; beq_iff = ==_iff }

-- A text as its code points.
abbrev pub Text : Type 0
Text = List ℕ

unfoldable pub text_beq : Text → Text → Bool
text_beq [] [] = true
text_beq (a ∷ s) (b ∷ t) = a == b && text_beq s t
text_beq s t = false

pub text_beq_iff : (s t : Text) → (text_beq s t ≡ true) ↔ (s ≡ t)
unfolding text_beq
text_beq_iff [] [] = (λ e. refl, λ e. refl)
text_beq_iff (a ∷ s) (b ∷ t) =
    let rest = text_beq_iff s t in (λ e. ground (arith, rest), λ e. ground (arith, rest))
text_beq_iff [] (b ∷ t) = (λ e. cc, λ e. cc)
text_beq_iff (a ∷ s) [] = (λ e. cc, λ e. cc)

instance abbrev pub text_eq : Eq Text
text_eq = record { beq = text_beq; beq_iff = text_beq_iff }

module _ {ℓ} {A : Type ℓ} ⦃e : Eq A⦄ where
  -- `x in xs`
  unfoldable pub contains : A → List A → Bool
  contains x [] = false
  contains x (y ∷ ys) = e.beq x y || contains x ys

  -- `set(xs).issubset(ys)`
  unfoldable pub subset : List A → List A → Bool
  unfolding contains
  subset [] ys = true
  subset (x ∷ xs) ys = contains x ys && subset xs ys

  pub contains-cons_self : (x : A) (ys : List A) → contains x (x ∷ ys) ≡ true
  unfolding contains
  contains-cons_self x ys = rw ((e.beq_iff x x).1 refl)

  pub contains_cons : (x y : A) (ys : List A) → contains x ys ≡ true → contains x (y ∷ ys) ≡ true
  unfolding contains
  contains_cons x y ys h = ground arith

  pub subset_cons : (y : A) (xs ys : List A) → subset xs ys ≡ true → subset xs (y ∷ ys) ≡ true
  unfolding subset
  subset_cons y [] ys h = refl
  subset_cons y (x ∷ xs) ys h = ground (arith, contains_cons x y ys, subset_cons y xs ys)

  pub subset_refl : (xs : List A) → subset xs xs ≡ true
  unfolding subset
  subset_refl [] = refl
  subset_refl (x ∷ xs) =
      ground (arith, contains-cons_self x xs, subset_cons x xs xs (subset_refl xs))

  -- A member of the smaller list is a member of the larger.
  pub contains-subset :
      (x : A) (xs ys : List A) → contains x xs ≡ true → subset xs ys ≡ true → contains x ys ≡ true
  unfolding contains subset
  contains-subset x [] ys m s = cc
  contains-subset x (y ∷ xs) ys m s = ground (arith, e.beq_iff x y, contains-subset x xs ys)

  pub subset_trans :
      (xs ys zs : List A) → subset xs ys ≡ true → subset ys zs ≡ true → subset xs zs ≡ true
  unfolding subset
  subset_trans [] ys zs p q = refl
  subset_trans (x ∷ xs) ys zs p q = ground (arith, contains-subset x ys zs, subset_trans xs ys zs)

  -- Anything with all members of `xs` for its own holds every list below `xs`.
  pub subset_of_contains :
      (xs ys : List A)
      → ((x : A) → contains x xs ≡ true → contains x ys ≡ true)
      → subset xs ys ≡ true
  unfolding subset
  subset_of_contains [] ys h = refl
  subset_of_contains (x ∷ xs) ys h = ground (
    arith,
    h x (contains-cons_self x xs),
    subset_of_contains xs ys (λ z m. h z (contains_cons z x xs m)),
  )
