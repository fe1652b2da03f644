-- ===== src/Sessions/Repository.antt =====
-- internal/lobby/sessions/session_repository.go: the sessions of a lobby by id. Each method holds
-- the repository's lock throughout, so a call is one step. The order of the entries is the order of
-- Go's iteration, which is any; Repository/Order shows where it does not matter.
pub mod Users
pub mod Order
use shig.Common.{
  text_key, uuid_key, ◌==◌, delete, if◌then◌else◌, insert, is_some, length, lookup, ℕ, ◌+◌, Uuid,
  Bool, true, false, Option, none, some, List, [], ◌∷◌, Map,
}
use shig.Sessions.Session.{
  Session, SessionType, user_session, instance_session, remote_instance_session,
}

abbrev pub Repository : Type 0 → Type 0
Repository C = Map Uuid (Session C)

abbrev pub is_user_session : SessionType → Bool
is_user_session user_session = true
is_user_session _ = false

module _ {C : Type 0} where
  -- FindByUserId
  unfoldable pub find_by_user : Uuid → Repository C → Option (Session C)
  find_by_user u [] = none
  find_by_user u ((k, s) ∷ r) = if s.user == u then some s else find_by_user u r

  -- New: a user has one session.
  unfoldable pub new : Session C → Repository C → Repository C × Bool
  unfolding find_by_user
  new s r = if is_some (find_by_user s.user r) then (r, false) else (insert s.id s r, true)

  unfoldable pub add : Session C → Repository C → Repository C
  add s r = insert s.id s r

  unfoldable pub find_by_id : Uuid → Repository C → Option (Session C)
  find_by_id id r = lookup id r

  unfoldable pub delete_by_id : Uuid → Repository C → Repository C × Bool
  delete_by_id id r = if is_some (lookup id r) then (delete id r, true) else (r, false)

  unfoldable pub contains : Uuid → Repository C → Bool
  contains id r = is_some (lookup id r)

  unfoldable pub update : Session C → Repository C → Repository C × Bool
  update s r = if is_some (lookup s.id r) then (insert s.id s r, true) else (r, false)

  unfoldable pub len : Repository C → ℕ
  len = length

  unfoldable pub len_user_session : Repository C → ℕ
  len_user_session [] = 0
  len_user_session ((k, s) ∷ r) =
      len_user_session r + (if is_user_session s.session_type then 1 else 0)

  -- Iter, with a routine that changes the session that it is given
  unfoldable pub iter : (Session C → Session C) → Repository C → Repository C
  iter f [] = []
  iter f ((k, s) ∷ r) = (k, f s) ∷ iter f r

  unfoldable pub delete_by_user : Uuid → Repository C → Repository C × Bool
  unfolding find_by_user
  delete_by_user u r = elim (find_by_user u r) [
    | none ↦ (r, false)
    | some s ↦ (delete s.id r, true)
  ]
