-- ===== src/Sessions/Repository/Users.antt =====
-- A user has at most one session in a lobby.
use shig.Common.{
  Bool-cases, inr, ◌&&◌, ◌==◌, if◌then◌else◌, inl, not, sym, text_key, uuid_key, Option-cases,
  delete, insert, is_some, lookup, Uuid, ◌≡◌, ◌≢◌, refl, none, some, [], ◌∷◌, arith, All,
}
use shig.Sessions.Session.{Session}
use shig.Sessions.Repository.{Repository, find_by_user, new, delete_by_user}

module _ {C : Type 0} where
  -- No entry has the key or the user.
  abbrev pub IsAbsent : Uuid → Uuid → Repository C → Type 0
  IsAbsent k u = All (λ e. (e.0 ≢ k) × (e.1.user ≢ u))

  -- Every session stands under its id, and no two have the same id or the same user.
  abbrev pub IsUnique : Repository C → Type 0
  IsUnique [] = Unit
  IsUnique ((k, s) ∷ r) = (k ≡ s.id) × IsAbsent k s.user r × IsUnique r

  delete_absent : (k u : Uuid) (r : Repository C) → IsAbsent k u r → delete k r ≡ r
  unfolding delete
  delete_absent k u [] h = refl
  delete_absent k u ((j, s) ∷ r) h = ground (arith, delete_absent k u r h.1)

  find_by_user_absent : (k u : Uuid) (r : Repository C) → IsAbsent k u r → find_by_user u r ≡ none
  unfolding find_by_user
  find_by_user_absent k u [] h = refl
  find_by_user_absent k u ((j, s) ∷ r) h = ground (arith, find_by_user_absent k u r h.1)

  -- Where neither the id nor the user is found, no entry has it.
  IsAbsent-of_none :
      (k u : Uuid) (r : Repository C) → lookup k r ≡ none → find_by_user u r ≡ none → IsAbsent k u r
  unfolding lookup find_by_user
  IsAbsent-of_none k u [] p q = tt
  IsAbsent-of_none k u ((j, s) ∷ r) p q =
      ((ground arith, ground arith), IsAbsent-of_none k u r (ground arith) (ground arith))

  pub insert-IsAbsent :
      (k u : Uuid) (s : Session C) (r : Repository C)
      → k ≢ s.id
      → u ≢ s.user
      → IsAbsent k u r
      → IsAbsent k u (insert s.id s r)
  unfolding insert
  insert-IsAbsent k u s [] p q h = ((λ e. p (sym e), λ e. q (sym e)), tt)
  insert-IsAbsent k u s ((j, t) ∷ r) p q h = ground (arith, insert-IsAbsent k u s r p q h.1)

  insert-IsUnique :
      (s : Session C) (r : Repository C)
      → IsAbsent s.id s.user r
      → IsUnique r
      → IsUnique (insert s.id s r)
  unfolding insert
  insert-IsUnique s [] a h = (refl, tt, tt)
  insert-IsUnique s ((j, t) ∷ r) a h = ground (
    arith,
    insert-IsUnique s r a.1 h.2,
    insert-IsAbsent j t.user s r (λ e. a.0.0 e) (λ e. a.0.1 e) h.1,
  )

  -- New keeps a lobby's sessions unique, if the id is new.
  pub new-IsUnique :
      (s : Session C) (r : Repository C) → lookup s.id r ≡ none → IsUnique r → IsUnique (new s r).0
  unfolding new
  new-IsUnique s r fresh h = elim (Option-cases (find_by_user s.user r)) [
    | inl e ↦ rw (e, new) (insert-IsUnique s r (IsAbsent-of_none s.id s.user r fresh e) h)
    | inr (t, e) ↦ rw (e, new) h
  ]

  delete-IsAbsent : (k u j : Uuid) (r : Repository C) → IsAbsent k u r → IsAbsent k u (delete j r)
  unfolding delete
  delete-IsAbsent k u j [] h = tt
  delete-IsAbsent k u j ((i, s) ∷ r) h = ground (arith, delete-IsAbsent k u j r h.1)

  pub delete-IsUnique : (k : Uuid) (r : Repository C) → IsUnique r → IsUnique (delete k r)
  unfolding delete
  delete-IsUnique k [] h = tt
  delete-IsUnique k ((j, s) ∷ r) h =
      ground (arith, delete-IsUnique k r h.2, delete-IsAbsent j s.user k r h.1)

  -- DeleteByUser keeps a lobby's sessions unique.
  pub delete_by_user-IsUnique :
      (u : Uuid) (r : Repository C) → IsUnique r → IsUnique (delete_by_user u r).0
  unfolding delete_by_user
  delete_by_user-IsUnique u r h = elim (Option-cases (find_by_user u r)) [
    | inl e ↦ rw (e, delete_by_user) h
    | inr (s, e) ↦ rw (e, delete_by_user) (delete-IsUnique s.id r h)
  ]

  find-insert :
      (u : Uuid) (s : Session C) (r : Repository C)
      → IsAbsent s.id s.user r
      → find_by_user u (insert s.id s r) ≡ (if s.user == u then some s else find_by_user u r)
  unfolding find_by_user insert
  find-insert u s [] a = refl
  find-insert u s ((j, t) ∷ r) a = ground (arith, find-insert u s r a.1)

  -- If the new session's id is in no entry, New accepts the session exactly if its user has none.
  -- Then the user has the new session; all other users, and on a refusal all users, have the
  -- session that they had.
  pub find_by_user-new :
      (s : Session C) (r : Repository C) (u : Uuid)
      → lookup s.id r ≡ none
      → ((new s r).1 ≡ not (is_some (find_by_user s.user r)))
        × (find_by_user u (new s r).0
            ≡ (if (new s r).1 && s.user == u then some s else find_by_user u r))
  unfolding new
  find_by_user-new s r u fresh = elim (Option-cases (find_by_user s.user r)) [
    | inl e ↦ rw (e, new) (refl, find-insert u s r (IsAbsent-of_none s.id s.user r fresh e))
    | inr (t, e) ↦ rw (e, new) (refl, refl)
  ]

  pub found-id-ne :
      (k w u : Uuid) (s : Session C) (r : Repository C)
      → IsAbsent k w r
      → IsUnique r
      → find_by_user u r ≡ some s
      → k ≢ s.id
  unfolding find_by_user
  found-id-ne k w u s [] a h e p = cc e
  found-id-ne k w u s ((j, t) ∷ r) a h e p = elim (Bool-cases (t.user == u)) [
    | inl hit ↦ ground arith
    | inr miss ↦ found-id-ne k w u s r a.1 h.2 (ground arith) p
  ]

  find-delete :
      (u v : Uuid) (s : Session C) (r : Repository C)
      → IsUnique r
      → find_by_user u r ≡ some s
      → find_by_user v (delete s.id r) ≡ (if u == v then none else find_by_user v r)
  unfolding find_by_user delete
  find-delete u v s [] h e = absurd (cc e)
  find-delete u v s ((k, t) ∷ r) h e = elim (Bool-cases (t.user == u)) [
    | inl hit ↦ ground (arith, delete_absent k t.user r h.1, find_by_user_absent k t.user r h.1)
    | inr miss ↦
        ground (arith, find-delete u v s r h.2, found-id-ne k t.user u s r h.1 h.2 (ground arith))
  ]

  -- Where ids and users are unique, DeleteByUser succeeds exactly if the user has a session. Then
  -- the user has none, and all other users have the session that they had.
  pub find_by_user-delete_by_user :
      (u v : Uuid) (r : Repository C)
      → IsUnique r
      → ((delete_by_user u r).1 ≡ is_some (find_by_user u r))
        × (find_by_user v (delete_by_user u r).0 ≡ (if u == v then none else find_by_user v r))
  unfolding delete_by_user
  find_by_user-delete_by_user u v r h = elim (Option-cases (find_by_user u r)) [
    | inl e ↦ rw (e, delete_by_user) (refl, ground arith)
    | inr (s, e) ↦ rw (e, delete_by_user) (refl, find-delete u v s r h e)
  ]
