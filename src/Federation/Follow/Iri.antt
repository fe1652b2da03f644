-- ===== src/Federation/Follow/Iri.antt =====
-- The IRI of a follow that this instance sends, as it comes back in an Accept.
use shig.Common.{none, some, false, Option, Bool, ◌++◌, Text, [], ◌∷◌, ◌≡◌, ◌⊎◌, inl, inr, refl}
use mathlib.Core.List.{append-nil}
use shig.Federation.{Url}
use shig.Federation.Strings.{codes, after_prefix}
use shig.Federation.Follow.{build_follow_activity_iri, is_follow_activity_iri, starts_hex}

abbrev hex_after : Option Text → Bool
hex_after none = false
hex_after (some rest) = starts_hex 36 rest

hex_rest :
    (path fresh : Text)
    → path ≡ codes "/federation/follow/" ++ (fresh ++ [])
    → hex_after (after_prefix (codes "/federation/follow/") path) ≡ starts_hex 36 fresh
unfolding after_prefix
hex_rest path fresh e = rw e (rw append-nil refl)

-- Under an instance's URL whose path is empty or "/", the IRI that BuildFollowActivityIri builds is
-- taken for that of a follow exactly when what uuid.NewString gave starts with 36 hexadecimal
-- digits or dashes.
pub is_follow-build :
    (u : Url) (fresh : Text)
    → (u.path ≡ []) ⊎ (u.path ≡ b'/' ∷ [])
    → is_follow_activity_iri (build_follow_activity_iri u fresh) ≡ starts_hex 36 fresh
unfolding is_follow_activity_iri build_follow_activity_iri
is_follow-build u fresh (inl e) =
    hex_rest (build_follow_activity_iri u fresh).path fresh (rw e refl)
is_follow-build u fresh (inr e) =
    hex_rest (build_follow_activity_iri u fresh).path fresh (rw e refl)
