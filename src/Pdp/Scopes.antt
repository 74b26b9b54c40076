-- ===== src/Pdp/Scopes.antt =====
-- What `_scope_matches` of src/actenon_permit/pdp.py returns for an action.
use actenon_permit.Base.{
  ℕ, ◌≡◌, ◌↔◌, ◌⊎◌, inl, inr, refl, sym, ap, ◌∙◌, arith, Bool, true, not, all, ◌==◌, ◌||◌, is_some,
  List, [], ◌∷◌, ◌++◌, Bool-cases, All, ==_iff,
}
use mathlib.Core.Path.{subst}
use actenon_permit.Base.Equality.{Text, text_beq, text_beq_iff}
use actenon_permit.Glob.{Item, one, exactly, items, holds, fnmatch}
use actenon_permit.Glob.Matching.{Fits, ends, reads, spans, fnmatch_iff}
use actenon_permit.Pdp.Rules.{scope_matches}

-- A pattern is the type of the action, or a glob that stands for it.
abbrev pub Matches : Text → Text → Type 0
Matches t p = (p ≡ t) ⊎ Fits (items 0 p) t

-- The first of the patterns that matches, with those before it, which do not.
pub record IsFirstMatch (patterns : List Text) (t p : Text) : Type 0 where
  pub before : List Text
  pub after : List Text
  pub split : patterns ≡ before ++ p ∷ after
  pub matches : Matches t p
  pub others : All (λ q. ¬ Matches t q) before

abbrev accepts : Text → Text → Bool
accepts t p = text_beq p t || fnmatch t p

accepts_iff : (t p : Text) → (accepts t p ≡ true) ↔ Matches t p
accepts_iff t p = elim (Bool-cases (text_beq p t)) [
  | inl same ↦ (λ h. inl ((text_beq_iff p t).0 same), λ m. rw same refl)
  | inr other ↦ (
    λ h. inr ((fnmatch_iff t p).0 (rw other at h)),
    λ m. elim m [
      | inl same ↦ absurd (cc ((text_beq_iff p t).1 same))
      | inr fits ↦ rw (other, (fnmatch_iff t p).1 fits) refl
    ],
  )
]

-- No code point with a meaning of its own in a pattern
abbrev pub is_plain : Text → Bool
is_plain s = all (λ c. not (c == 42 || c == 63 || c == 91)) s

plain_item :
    (c : ℕ) (s : Text)
    → not (c == 42 || c == 63 || c == 91) ≡ true
    → items 0 (c ∷ s) ≡ one (exactly c) ∷ items 0 s
unfolding items
plain_item c s plain = ground arith

read_one :
    {c : ℕ} {is : List Item} {t : Text}
    → Fits (one (exactly c) ∷ is) t
    → (rest : Text) × (t ≡ c ∷ rest) × Fits is rest
unfolding holds
read_one {c} (reads {c = d} {s = s} admitted fits) =
    (s, ap (λ (x : ℕ). x ∷ s) (sym ((==_iff c d).0 admitted)), fits)

-- What a plain beginning and a star stand for.
prefix_items :
    (prefix t : Text)
    → is_plain prefix ≡ true
    → Fits (items 0 (prefix ++ 42 ∷ [])) t
    → (rest : Text) × (t ≡ prefix ++ rest)
prefix_items [] t plain fits = (t, refl)
prefix_items (c ∷ prefix) t plain fits =
    let here : not (c == 42 || c == 63 || c == 91) ≡ true = ground arith in
    let more : is_plain prefix ≡ true = ground arith in
    let item = plain_item c (prefix ++ 42 ∷ []) here in
    let (s, start, fits') = read_one (subst (λ (is : List Item). Fits is t) item fits) in
    let (rest, split) = prefix_items prefix s more fits' in
    (rest, start ∙ ap (λ (x : Text). c ∷ x) split)

all_text : (s : Text) → Fits (items 0 (42 ∷ [])) (s ++ [])
unfolding items
all_text s = spans s ends

append_nil : (s : Text) → s ++ [] ≡ s
append_nil [] = refl
append_nil (c ∷ s) = ap (λ (x : Text). c ∷ x) (append_nil s)

Fits-prefix :
    (prefix rest : Text)
    → is_plain prefix ≡ true
    → Fits (items 0 (prefix ++ 42 ∷ [])) (prefix ++ rest)
unfolding holds
Fits-prefix [] rest plain = subst (Fits (items 0 (42 ∷ []))) (append_nil rest) (all_text rest)
Fits-prefix (c ∷ prefix) rest plain =
    let here : not (c == 42 || c == 63 || c == 91) ≡ true = ground arith in
    let more : is_plain prefix ≡ true = ground arith in
    subst (λ (is : List Item). Fits is (c ∷ (prefix ++ rest)))
      (sym (plain_item c (prefix ++ 42 ∷ []) here))
      (reads ((==_iff c c).1 refl) (Fits-prefix prefix rest more))

Matches-prefix :
    (prefix t : Text)
    → is_plain prefix ≡ true
    → Matches t (prefix ++ 42 ∷ [])
    → (rest : Text) × (t ≡ prefix ++ rest)
Matches-prefix prefix t plain (inl same) = (42 ∷ [], sym same)
Matches-prefix prefix t plain (inr fits) = prefix_items prefix t plain fits

single : (p t : Text) → (is_some (scope_matches (p ∷ []) t) ≡ true) ↔ (accepts t p ≡ true)
unfolding scope_matches
single p t = (λ h. ground arith, λ h. ground arith)

-- A pattern of a beginning without a star, a question mark or a bracket, and then a star, matches exactly
-- the actions whose type has that beginning.
pub scope_matches-prefix :
    (prefix t : Text)
    → is_plain prefix ≡ true
    → (is_some (scope_matches ((prefix ++ 42 ∷ []) ∷ []) t) ≡ true)
      ↔ ((rest : Text) × (t ≡ prefix ++ rest))
scope_matches-prefix prefix t plain =
    let p = prefix ++ 42 ∷ [] in
    (
      λ h. Matches-prefix prefix t plain ((accepts_iff t p).0 ((single p t).0 h)),
      λ (rest, split). (single p t).1 (
          (accepts_iff t p).1
            (inr (subst (Fits (items 0 p)) (sym split) (Fits-prefix prefix rest plain)))),
    )
