-- ===== src/Texts.antt =====
-- What the program asks of `str`: literals, `lower`, `strip` and the search for a substring. A text is
-- its code points.
use Prim.Native.String.{String}
use Prim.Native.Char.{code}
use actenon_permit.Base.{
  ℕ, ◌+◌, Bool, true, false, not, ◌&&◌, ◌||◌, [], ◌∷◌, any, leb, ◌==◌, if◌then◌else◌,
}
use actenon_permit.Base.Equality.{Text}

-- The code points of a literal.
abbrev pub codes : String → Text
codes String.[] = []
codes (String.◌∷◌ c s) = code c ∷ codes s

abbrev pub is_between : ℕ → ℕ → ℕ → Bool
is_between low high c = leb low c && leb c high

-- `str.lower`, for the letters of ASCII and the one other code point whose lower case begins with a letter of
-- ASCII that no other form has: U+212A, whose lower case is k; U+0130 becomes i and a combining dot.
unfoldable pub lower : Text → Text
lower [] = []
lower (c ∷ s) =
    let rest = lower s in
    if is_between 65 90 c
    then (c + 32) ∷ rest
    else if c == 8490
    then 107 ∷ rest
    else if c == 304
    then 105 ∷ 775 ∷ rest
    else c ∷ rest

-- `str.isspace` of one code point
unfoldable pub is_space : ℕ → Bool
is_space c =
    is_between 9 13 c
    || is_between 28 32 c
    || c == 133
    || c == 160
    || c == 5760
    || is_between 8192 8202 c
    || c == 8232
    || c == 8233
    || c == 8239
    || c == 8287
    || c == 12288

unfoldable pub skip_spaces : Text → Text
unfolding is_space
skip_spaces [] = []
skip_spaces (c ∷ s) = let rest = skip_spaces s in if is_space c then rest else c ∷ s

abbrev pub all_spaces : Text → Bool
all_spaces s = not (any (λ c. not (is_space c)) s)

unfoldable pub drop_end_spaces : Text → Text
unfolding is_space
drop_end_spaces [] = []
drop_end_spaces (c ∷ s) =
    let rest = drop_end_spaces s in if all_spaces (c ∷ s) then [] else c ∷ rest

-- `str.strip`
unfoldable pub strip : Text → Text
unfolding skip_spaces drop_end_spaces
strip s = drop_end_spaces (skip_spaces s)

-- `str.startswith`
unfoldable pub has_prefix : Text → Text → Bool
has_prefix [] s = true
has_prefix (p ∷ ps) [] = false
has_prefix (p ∷ ps) (c ∷ s) = p == c && has_prefix ps s

-- `part in s`
unfoldable pub has_infix : Text → Text → Bool
unfolding has_prefix
has_infix part [] = has_prefix part []
has_infix part (c ∷ s) = has_prefix part (c ∷ s) || has_infix part s

-- The longest beginning of a text whose code points pass a test, and the rest.
unfoldable pub span : (ℕ → Bool) → Text → Text × Text
span p [] = ([], [])
span p (c ∷ s) = let more = span p s in if p c then (c ∷ more.0, more.1) else ([], c ∷ s)
