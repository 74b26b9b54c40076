-- ===== src/Grant/Sets.antt =====
-- The lists that `attenuate` builds hold what they should.
use actenon_permit.Base.{
  ◌≡◌, refl, true, ◌||◌, List, [], ◌∷◌, ◌++◌, arith, if◌then◌else◌, Bool-cases, inl, inr,
}
use actenon_permit.Base.Equality.{
  Text, text_eq, text_beq, text_beq_iff, contains, subset, subset_of_contains, subset_refl,
  subset_trans,
}
use actenon_permit.Grant.{insert_sorted, sorted_set, extend_rules}

contains-insert_sorted :
    (z x : Text) (ys : List Text)
    → contains z (insert_sorted x ys) ≡ (text_beq z x || contains z ys)
unfolding contains insert_sorted
contains-insert_sorted z x [] = refl
contains-insert_sorted z x (y ∷ ys) =
    ground
      (arith, text_beq_iff x y, text_beq_iff z x, text_beq_iff z y, contains-insert_sorted z x ys)

-- `sorted(set(xs))` has the members of `xs`.
pub contains-sorted_set : (z : Text) (xs : List Text) → contains z (sorted_set xs) ≡ contains z xs
unfolding contains sorted_set
contains-sorted_set z [] = refl
contains-sorted_set z (x ∷ xs) =
    ground (arith, contains-insert_sorted z x (sorted_set xs), contains-sorted_set z xs)

pub contains-append_left :
    (z : Text) (xs ys : List Text) → contains z xs ≡ true → contains z (xs ++ ys) ≡ true
unfolding contains
contains-append_left z [] ys h = cc
contains-append_left z (x ∷ xs) ys h = ground (arith, contains-append_left z xs ys)

-- Deny entries are only added.
pub subset-sorted_set_append : (xs ys : List Text) → subset xs (sorted_set (xs ++ ys)) ≡ true
subset-sorted_set_append xs ys =
    subset_of_contains xs (sorted_set (xs ++ ys))
      (λ z m. rw (contains-sorted_set z (xs ++ ys)) (contains-append_left z xs ys m))

subset-append : (xs ys : List Text) → subset xs (xs ++ ys) ≡ true
subset-append xs ys = subset_of_contains xs (xs ++ ys) (λ z m. contains-append_left z xs ys m)

subset-extend_step :
    (r : Text) (rules : List Text)
    → subset rules (if contains r rules then rules else rules ++ r ∷ []) ≡ true
subset-extend_step r rules = elim (Bool-cases (contains r rules)) [
  | inl old ↦ rw old (subset_refl rules)
  | inr new ↦ rw new (subset-append rules (r ∷ []))
]

-- Approval rules are only added.
pub subset-extend_rules : (rules extra : List Text) → subset rules (extend_rules rules extra) ≡ true
unfolding extend_rules
subset-extend_rules rules [] = subset_refl rules
subset-extend_rules rules (r ∷ extra) =
    let next = if contains r rules then rules else rules ++ r ∷ [] in
    subset_trans rules next (extend_rules next extra) (subset-extend_step r rules)
      (subset-extend_rules next extra)
