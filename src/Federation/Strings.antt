-- ===== src/Federation/Strings.antt =====
-- The functions of Go's strings and path that the federation calls, on code points.
use Prim.Native.Char.{code}
use Prim.Native.String.{String}
use shig.Common.{
  Text, ℕ, ◌+◌, ◌==◌, ◌&&◌, leb, Bool, true, false, if◌then◌else◌, List, [], ◌∷◌, ◌++◌, Option,
  none, some,
}
use mathlib.Core.List.{reverse}

abbrev pub codes : String → Text
codes String.[] = []
codes (String.◌∷◌ c s) = code c ∷ codes s

abbrev pub same : Text → Text → Bool
same [] [] = true
same [] (y ∷ ys) = false
same (x ∷ xs) [] = false
same (x ∷ xs) (y ∷ ys) = x == y && same xs ys

-- strings.ToLower, on ASCII
abbrev pub lower : ℕ → ℕ
lower c = if leb b'A' c && leb c b'Z' then c + 32 else c

unfoldable pub to_lower : Text → Text
to_lower [] = []
to_lower (c ∷ s) = lower c ∷ to_lower s

abbrev into_first : ℕ → List Text → List Text
into_first c [] = (c ∷ []) ∷ []
into_first c (t ∷ ts) = (c ∷ t) ∷ ts

-- strings.Split at a separator of one character: there is always a first part.
unfoldable pub split : ℕ → Text → List Text
split sep [] = [] ∷ []
split sep (c ∷ s) = let rest = split sep s in if c == sep then [] ∷ rest else into_first c rest

-- The rest after a prefix
unfoldable pub after_prefix : Text → Text → Option Text
after_prefix [] s = some s
after_prefix (p ∷ ps) [] = none
after_prefix (p ∷ ps) (c ∷ s) = let rest = after_prefix ps s in if p == c then rest else none

-- strings.HasSuffix and TrimSuffix: what stands before the suffix
unfoldable pub before_suffix : Text → Text → Option Text
unfolding after_prefix
before_suffix suffix s = elim (after_prefix (reverse suffix) (reverse s)) [
  | none ↦ none
  | some r ↦ some (reverse r)
]

drop_all : ℕ → Text → Text
drop_all c [] = []
drop_all c (x ∷ s) = let rest = drop_all c s in if x == c then rest else x ∷ s

take_until : ℕ → Text → Text
take_until c [] = []
take_until c (x ∷ s) = let rest = take_until c s in if x == c then [] else x ∷ rest

-- strings.Trim of one character
unfoldable pub trim : ℕ → Text → Text
unfolding drop_all
trim c s = reverse (drop_all c (reverse (drop_all c s)))

or_slash : Text → Text
or_slash [] = b'/' ∷ []
or_slash (c ∷ s) = c ∷ s

-- path.Base: "." for the empty path, "/" for one of slashes only
unfoldable pub base : Text → Text
unfolding drop_all take_until or_slash
base [] = b'.' ∷ []
base (c ∷ s) = or_slash (reverse (take_until b'/' (drop_all b'/' (reverse (c ∷ s)))))

joined : List Text → Text
joined [] = []
joined (e ∷ es) = (b'/' ∷ e) ++ joined es

-- URL.JoinPath on a clean base path: its last slashes are dropped, and one stands before each
-- element.
unfoldable pub join_path : Text → List Text → Text
unfolding drop_all joined
join_path path elements = reverse (drop_all b'/' (reverse path)) ++ joined elements
