-- ===== src/Sessions/Repository/Order.antt =====
-- The order in which Go takes the entries of a map does not matter to the searches by user.
use mathlib.Core.List.{Permᴰ}
use shig.Common.{
  ◌∙◌, some, ◌==◌, if◌then◌else◌, ap, subst₂, subst, sym, Uuid, ◌≡◌, refl, ◌∷◌, arith,
}
use shig.Sessions.Session.{Session}
use shig.Sessions.Repository.{Repository, find_by_user}
use shig.Sessions.Repository.Users.{IsUnique, IsAbsent}

module _ {C : Type 0} where
  perm-IsAbsent : {r q : Repository C} (k u : Uuid) → Permᴰ r q → IsAbsent k u r → IsAbsent k u q
  perm-IsAbsent k u Permᴰ.nil h = tt
  perm-IsAbsent k u (Permᴰ.cons {a = a} {l₂ = q} e p) h =
      subst (λ b. IsAbsent k u (b ∷ q)) e (h.0, perm-IsAbsent k u p h.1)
  perm-IsAbsent k u (Permᴰ.swap {a = a} {b = b} {l = l} e f) h =
      subst₂ (λ c d. IsAbsent k u (d ∷ c ∷ l)) e f (h.1.0, (h.0, h.1.1))
  perm-IsAbsent k u (Permᴰ.trans p q) h = perm-IsAbsent k u q (perm-IsAbsent k u p h)

  swap-IsUnique :
      (a b : Uuid × Session C) (l : Repository C) → IsUnique (a ∷ b ∷ l) → IsUnique (b ∷ a ∷ l)
  swap-IsUnique (k, s) (j, t) l h =
      (h.2.0, ((λ e. h.1.0.0 (sym e), λ e. h.1.0.1 (sym e)), h.2.1), (h.0, h.1.1, h.2.2))

  perm-IsUnique : {r q : Repository C} → Permᴰ r q → IsUnique r → IsUnique q
  perm-IsUnique Permᴰ.nil h = tt
  perm-IsUnique (Permᴰ.cons {a = (k, s)} {l₂ = q} e p) h =
      subst (λ b. IsUnique (b ∷ q)) e (h.0, perm-IsAbsent k s.user p h.1, perm-IsUnique p h.2)
  perm-IsUnique (Permᴰ.swap {a = a} {b = b} {l = l} e f) h =
      subst₂ (λ c d. IsUnique (d ∷ c ∷ l)) e f (swap-IsUnique a b l h)
  perm-IsUnique (Permᴰ.trans p q) h = perm-IsUnique q (perm-IsUnique p h)

  swap-find :
      (u : Uuid) (a b : Uuid × Session C) (l : Repository C)
      → IsUnique (a ∷ b ∷ l)
      → find_by_user u (a ∷ b ∷ l) ≡ find_by_user u (b ∷ a ∷ l)
  unfolding find_by_user
  swap-find u (k, s) (j, t) l h = ground (arith, h.1.0.1)

  -- Where ids and users are unique, every order of the entries gives the same session of a user.
  pub find_by_user-perm :
      {r q : Repository C} (u : Uuid) → Permᴰ r q → IsUnique r → find_by_user u r ≡ find_by_user u q
  unfolding find_by_user
  find_by_user-perm u Permᴰ.nil h = refl
  find_by_user-perm u (Permᴰ.cons {a = (k, s)} {l₁ = r} {l₂ = q} e p) h =
      subst (λ b. find_by_user u ((k, s) ∷ r) ≡ find_by_user u (b ∷ q)) e
        (ap (λ x. if s.user == u then some s else x) (find_by_user-perm u p h.2))
  find_by_user-perm u (Permᴰ.swap {a = a} {b = b} {l = l} e f) h =
      subst₂ (λ c d. find_by_user u (a ∷ b ∷ l) ≡ find_by_user u (d ∷ c ∷ l)) e f
        (swap-find u a b l h)
  find_by_user-perm u (Permᴰ.trans p q) h =
      find_by_user-perm u p h ∙ find_by_user-perm u q (perm-IsUnique p h)
