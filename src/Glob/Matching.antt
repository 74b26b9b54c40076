-- ===== src/Glob/Matching.antt =====
-- The matcher decides what a pattern means.
use actenon_permit.Base.{
  ◌≡◌, ◌↔◌, Bool, true, List, [], ◌∷◌, ◌++◌, refl, arith, Bool-cases, inl, inr, ◌&&◌, ap, sym,
}
use mathlib.Core.Path.{subst}
use actenon_permit.Base.Equality.{Text}
use actenon_permit.Glob.{Item, star, one, Test, holds, fits, some_end, items, fnmatch}

-- A text is what a list of items stands for: a star for any text, another item for one code point.
pub data Fits : List Item → Text → Type 0 where
  ends : Fits [] []
  reads :
      {t : Test} {c : _} {is : List Item} {s : Text}
      → holds t c ≡ true
      → Fits is s
      → Fits (one t ∷ is) (c ∷ s)
  spans : {is : List Item} {s : Text} (taken : Text) → Fits is s → Fits (star ∷ is) (taken ++ s)

some_end-split :
    (p : Text → Bool) (s : Text)
    → some_end p s ≡ true
    → (taken rest : Text) × (s ≡ taken ++ rest) × (p rest ≡ true)
unfolding some_end
some_end-split p [] found = ([], [], refl, found)
some_end-split p (c ∷ s) found = elim (Bool-cases (p (c ∷ s))) [
  | inl here ↦ ([], c ∷ s, refl, here)
  | inr later ↦
      let (taken, rest, split, end) = some_end-split p s (rw later at found) in
      (c ∷ taken, rest, ap (λ (x : Text). c ∷ x) split, end)
]

and_true : (a b : Bool) → (a && b) ≡ true → (a ≡ true) × (b ≡ true)
and_true a b h = ground arith

fits-Fits : (is : List Item) (s : Text) → fits is s ≡ true → Fits is s
unfolding fits
fits-Fits [] [] h = ends
fits-Fits [] (c ∷ s) h = cc
fits-Fits (star ∷ is) s h =
    let (taken, rest, split, end) = some_end-split (fits is) s h in
    subst (Fits (star ∷ is)) (sym split) (spans taken (fits-Fits is rest end))
fits-Fits (one t ∷ is) [] h = cc
fits-Fits (one t ∷ is) (c ∷ s) h =
    let (first, rest) = and_true (holds t c) (fits is s) h in reads first (fits-Fits is s rest)

some_end-append :
    (p : Text → Bool) (taken rest : Text) → p rest ≡ true → some_end p (taken ++ rest) ≡ true
unfolding some_end
some_end-append p [] [] end = end
some_end-append p [] (c ∷ s) end = rw end refl
some_end-append p (c ∷ taken) rest end = ground (arith, some_end-append p taken rest end)

Fits-fits : (is : List Item) (s : Text) → Fits is s → fits is s ≡ true
unfolding fits
Fits-fits [] [] ends = refl
Fits-fits [] (c ∷ s) impossible = elim impossible [ ]
Fits-fits (one t ∷ is) [] impossible = elim impossible [ ]
Fits-fits (one t ∷ is) (c ∷ s) (reads first rest) = rw first (Fits-fits is s rest)
Fits-fits (star ∷ is) s (spans {s = rest} taken end) =
    some_end-append (fits is) taken rest (Fits-fits is rest end)

-- The matcher accepts a name exactly when the name is what the items of the pattern stand for.
pub fnmatch_iff :
    (name pattern : Text) → (fnmatch name pattern ≡ true) ↔ Fits (items 0 pattern) name
unfolding fnmatch
fnmatch_iff name pattern = (fits-Fits (items 0 pattern) name, Fits-fits (items 0 pattern) name)
