-- ===== src/Glob.antt =====
-- `fnmatch.fnmatch` of Python's standard library, on a system where the case of a name matters: what
-- src/actenon_permit/pdp.py asks of it.
pub mod Matching
use actenon_permit.Base.{
  ℕ, zero, suc, Bool, true, false, not, ◌&&◌, ◌||◌, Option, none, some, List, [], ◌∷◌, any, length,
  ltb, leb, ◌==◌, if◌then◌else◌,
}
use actenon_permit.Base.Equality.{Text}
use actenon_permit.Texts.{is_between}

-- A class of code points: its ranges, or all that is in none of them.
pub data Test : Type 0 where
  exactly : ℕ → Test
  anything : Test
  one_of none_of : List (ℕ × ℕ) → Test

pub data Item : Type 0 where
  star : Item
  one : Test → Item

-- The ranges of a class. A hyphen between two code points makes a range of them, which is empty if they are in
-- the wrong order.
unfoldable pub ranges : Text → List (ℕ × ℕ)
ranges [] = []
ranges (low ∷ []) = (low, low) ∷ []
ranges (low ∷ hyphen ∷ []) = (low, low) ∷ (hyphen, hyphen) ∷ []
ranges (low ∷ hyphen ∷ high ∷ rest) =
    let after = ranges rest in
    let single = ranges (hyphen ∷ high ∷ rest) in
    if hyphen == 45 then (low, high) ∷ after else (low, low) ∷ single

-- A text up to the next `]`, if there is one.
unfoldable pub up_to_bracket : Text → Option Text
up_to_bracket [] = none
up_to_bracket (c ∷ s) =
    let rest = up_to_bracket s in
    if c == 93 then some [] else elim rest [ none ↦ none | some body ↦ some (c ∷ body) ]

-- The same, where a `]` in front does not end the class.
unfoldable pub body_from : Text → Option Text
unfolding up_to_bracket
body_from [] = none
body_from (c ∷ s) =
    if c == 93
    then elim (up_to_bracket s) [ none ↦ none | some body ↦ some (c ∷ body) ]
    else up_to_bracket (c ∷ s)

-- What stands between `[` and its `]`.
unfoldable pub class_body : Text → Option Text
unfolding body_from
class_body [] = none
class_body (c ∷ s) =
    if c == 33
    then elim (body_from s) [ none ↦ none | some body ↦ some (c ∷ body) ]
    else body_from (c ∷ s)

unfoldable pub class_test : Text → Test
unfolding ranges
class_test [] = one_of []
class_test (c ∷ s) = if c == 33 then none_of (ranges s) else one_of (ranges (c ∷ s))

-- `fnmatch.translate`, where `skip` code points have been read with a class before.
unfoldable pub items : ℕ → Text → List Item
unfolding class_body class_test
items skip [] = []
items (suc skip) (c ∷ s) = items skip s
items zero (c ∷ s) =
    let rest = items zero s in
    let after = λ (n : ℕ). items n s in
    if c == 42
    then star ∷ rest
    else if c == 63
    then one anything ∷ rest
    else if c == 91
    then elim (class_body s) [
      | none ↦ one (exactly c) ∷ rest
      | some body ↦ one (class_test body) ∷ after (suc (length body))
    ]
    else one (exactly c) ∷ rest

abbrev pub in_range : ℕ → ℕ × ℕ → Bool
in_range c r = is_between r.0 r.1 c

unfoldable pub holds : Test → ℕ → Bool
holds (exactly d) c = d == c
holds anything c = true
holds (one_of rs) c = any (in_range c) rs
holds (none_of rs) c = not (any (in_range c) rs)

-- Whether some end of a text passes a test.
unfoldable pub some_end : (Text → Bool) → Text → Bool
some_end p [] = p []
some_end p (c ∷ s) = p (c ∷ s) || some_end p s

unfoldable pub fits : List Item → Text → Bool
unfolding holds some_end
fits [] [] = true
fits [] (c ∷ s) = false
fits (star ∷ is) s = some_end (fits is) s
fits (one t ∷ is) [] = false
fits (one t ∷ is) (c ∷ s) = holds t c && fits is s

-- `fnmatch.fnmatch(name, pattern)`
unfoldable pub fnmatch : Text → Text → Bool
unfolding items fits
fnmatch name pattern = fits (items zero pattern) name
