-- ===== src/Lobby/Manager/Leaving.antt =====
-- When the last user leaves a lobby.
use shig.Common.{
  insert, sym, subst, lookup-insert, ite, leb, text_key, uuid_key, ◌&&◌, ◌==◌, if◌then◌else◌,
  lookup, Uuid, ◌≡◌, Bool, true, false, Option, none, some, [], arith, lookup-delete,
}
use shig.Lobby.Sequencer.{on_garbage, Lobby}
use shig.Sessions.Repository.{len, len_user_session, delete_by_user, Repository}
use shig.Lobby.Manager.{on_garbage, len_user_session, Lobbies, close_lobby, remove_session}
use shig.Lobby.Repository.{not_running, Lobbies, get_lobby}

module _ {C : Type 0} where
  -- The sessions that are left when a user's session is removed.
  abbrev left : Uuid → Lobby C → Repository C
  left user l = (delete_by_user user l.sessions).0

  -- A lobby that is found, and closed.
  abbrev pub is_stranded : Option (Lobby C) → Bool
  is_stranded none = false
  is_stranded (some l) = l.done

  leaving-closes :
      (saved : Bool) (id user : Uuid) (l : Lobby C) (r : Lobbies C)
      → lookup id r ≡ some l
      → l.id ≡ id
      → l.done ≡ false
      → len_user_session (left user l) ≡ 0
      → (remove_session true saved id user r).0
        ≡ close_lobby saved id (insert id (on_garbage user l).0 r)
  unfolding remove_session on_garbage
  leaving-closes saved id user l r f i w e = ground (arith)

  close-deletes :
      (id other : Uuid) (l : Lobby C) (r : Lobbies C)
      → lookup id r ≡ some l
      → l.sessions ≡ []
      → lookup other (close_lobby true id r) ≡ ite (uuid_key.dec id other) none (lookup other r)
  unfolding close_lobby len
  close-deletes id other l r f e = ground (arith, lookup-delete id other r, lookup-delete id id r)

  close-strands :
      (saved : Bool) (id : Uuid) (l : Lobby C) (r : Lobbies C)
      → lookup id r ≡ some l
      → (saved && leb (len l.sessions) 0) ≡ false
      → is_stranded (lookup id (close_lobby saved id r)) ≡ true
  unfolding close_lobby
  close-strands saved id l r f e = ground (
    arith,
    lookup-insert id id (not_running l) r,
    lookup-insert id id (record l { done = true }) r,
    lookup-insert id id (record (not_running l) { done = true }) (insert id (not_running l) r),
  )

  -- When a user leaves an open lobby that stands under its id, in time, no
  -- session is left and the database saves, then the lobby leaves the repository and no other lobby
  -- is touched.
  pub remove_session-cleans :
      (id user other : Uuid) (l : Lobby C) (r : Lobbies C)
      → lookup id r ≡ some l
      → l.id ≡ id
      → l.done ≡ false
      → left user l ≡ []
      → get_lobby other (remove_session true true id user r).0
        ≡ (if other == id then none else get_lobby other r)
  unfolding get_lobby on_garbage len_user_session
  remove_session-cleans id user other l r f i w e =
      let e' : (on_garbage user l).0.sessions ≡ [] = ground arith in
      let kept = lookup-insert id id (on_garbage user l).0 r in
      subst (λ x. lookup other x ≡ (if other == id then none else lookup other r))
        (sym (leaving-closes true id user l r f i w (ground arith)))
        (ground (
          arith,
          close-deletes id other (on_garbage user l).0 (insert id (on_garbage user l).0 r)
              (ground (arith, kept)) e',
          lookup-insert id other (on_garbage user l).0 r,
        ))

  -- When a user leaves an open lobby that stands under its id, in time, and no
  -- user's session is left, but another session is or the database does not save, then the lobby
  -- stays in the repository and is closed.
  pub remove_session-strands :
      (saved : Bool) (id user : Uuid) (l : Lobby C) (r : Lobbies C)
      → lookup id r ≡ some l
      → l.id ≡ id
      → l.done ≡ false
      → len_user_session (left user l) ≡ 0
      → (saved && leb (len (left user l)) 0) ≡ false
      → is_stranded (get_lobby id (remove_session true saved id user r).0) ≡ true
  unfolding get_lobby on_garbage len_user_session
  remove_session-strands saved id user l r f i w e k =
      subst (λ x. is_stranded (lookup id x) ≡ true) (sym (leaving-closes saved id user l r f i w e))
        (close-strands saved id (on_garbage user l).0 (insert id (on_garbage user l).0 r)
          (ground (arith, lookup-insert id id (on_garbage user l).0 r)) (ground arith))
