-- ===== src/Rtp/Sdp/Split.antt =====
-- What sdp.go uses of Go's `strings`: SplitAfter by one character, TrimSpace, Contains.
use shig.Common.{
  inr, inl, Bool-cases, ℕ, Text, ◌≡◌, refl, Bool, true, false, ◌||◌, ◌&&◌, List, [], ◌∷◌, ◌++◌,
  arith, All, leb, ◌==◌, if◌then◌else◌,
}

abbrev pub space : ℕ
space = 32

extend_first : ℕ → List Text → List Text
extend_first c [] = (c ∷ []) ∷ []
extend_first c (w ∷ ws) = (c ∷ w) ∷ ws

-- Each piece keeps the separator that ends it; the last piece has none.
unfoldable pub split_after : ℕ → Text → List Text
unfolding extend_first
split_after sep [] = [] ∷ []
split_after sep (c ∷ cs) =
    let rest = split_after sep cs in if c == sep then (c ∷ []) ∷ rest else extend_first c rest

-- unicode.IsSpace
unfoldable pub is_space : ℕ → Bool
is_space c =
    (leb 9 c && leb c 13)
    || c == 32
    || c == 0x85
    || c == 0xa0
    || c == 0x1680
    || (leb 0x2000 c && leb c 0x200a)
    || c == 0x2028
    || c == 0x2029
    || c == 0x202f
    || c == 0x205f
    || c == 0x3000

unfoldable pub trim_left : Text → Text
unfolding is_space
trim_left [] = []
trim_left (c ∷ cs) = let rest = trim_left cs in if is_space c then rest else c ∷ cs

drop_if_space : ℕ → Text → Text
unfolding is_space
drop_if_space c [] = if is_space c then [] else c ∷ []
drop_if_space c (d ∷ ds) = c ∷ d ∷ ds

unfoldable pub trim_right : Text → Text
unfolding drop_if_space
trim_right [] = []
trim_right (c ∷ cs) = drop_if_space c (trim_right cs)

unfoldable pub trim_space : Text → Text
unfolding trim_left trim_right
trim_space s = trim_right (trim_left s)

unfoldable pub has_prefix : Text → Text → Bool
has_prefix [] s = true
has_prefix (p ∷ ps) [] = false
has_prefix (p ∷ ps) (c ∷ cs) = c == p && has_prefix ps cs

-- strings.Contains(s, part)
unfoldable pub contains : Text → Text → Bool
unfolding has_prefix
contains [] part = has_prefix part []
contains (c ∷ cs) part = has_prefix part (c ∷ cs) || contains cs part

abbrev pub HasNoSpace : Text → Type 0
HasNoSpace = All (λ c. (c == space) ≡ false)

-- A text without the separator is one piece.
pub split_after_none : (w : Text) → HasNoSpace w → split_after space w ≡ w ∷ []
unfolding split_after
split_after_none [] h = refl
split_after_none (c ∷ cs) h = ground (arith, split_after_none cs h.1)

-- A first word is split off with its separator.
pub split_after_word :
    (w rest : Text)
    → HasNoSpace w
    → split_after space (w ++ (space ∷ rest)) ≡ (w ++ (space ∷ [])) ∷ split_after space rest
unfolding split_after
split_after_word [] rest h = refl
split_after_word (c ∷ cs) rest h = ground (arith, split_after_word cs rest h.1)

-- There is always a piece.
pub split_after-cons : (s : Text) → (w : Text) × (ws : List Text) × (split_after space s ≡ w ∷ ws)
unfolding split_after
split_after-cons [] = ([], [], refl)
split_after-cons (c ∷ cs) = elim (Bool-cases (c == space)) [
  | inl e ↦ (c ∷ [], split_after space cs, rw e)
  | inr e ↦ let (w, ws, p) = split_after-cons cs in (c ∷ w, ws, rw (e, p))
]

two_words :
    split_after space (b'a' ∷ 32 ∷ b'b' ∷ 32 ∷ []) ≡ (b'a' ∷ 32 ∷ []) ∷ (b'b' ∷ 32 ∷ []) ∷ [] ∷ []
unfolding split_after
two_words = refl

trimmed : trim_space (9 ∷ b'1' ∷ 32 ∷ b'2' ∷ 32 ∷ 32 ∷ []) ≡ b'1' ∷ 32 ∷ b'2' ∷ []
unfolding trim_space
trimmed = refl
