-- ===== src/Lobby/Manager.antt =====
-- internal/lobby/lobby_manager.go: what a request does with a lobby, and the garbage goroutine that
-- NewLobbyManager starts. A lobby is a pointer in the repository, so each step stores it again. The
-- context of a request is taken to outlast its command: `time_out` is for one that is not done.
use shig.Common.{
  text_key, uuid_key, insert, lookup, Bool, true, false, Option, none, some, if◌then◌else◌, Uuid,
  ◌&&◌, ◌==◌, not,
}
use shig.Lobby.Sequencer.{Lobby, Entity, new_session_in, on_garbage, run_command}
use shig.Lobby.Repository.{Lobbies, delete_lobby, get_or_create_lobby}
use shig.Lobby.Commands.{create_egress, create_ingress, new_command, Answers, Kind, Command}
use shig.Sessions.Session.{unidirectional, silent, user_session, SignalKind}
use shig.Sessions.Repository.{len_user_session}
pub mod Leaving
pub mod Joining

pub data Reply : Type 0 where
  no_lobby no_new_session time_out : Reply
  replied : Command → Reply

reply : Command → Reply
reply c = if c.done then replied c else time_out

module _ {C : Type 0} where
  -- l.stop() on the lobby, where it is still in the repository.
  stop_lobby : Uuid → Lobbies C → Lobbies C
  stop_lobby id r = elim (lookup id r) [
    | none ↦ r
    | some l ↦ insert id (record l { done = true }) r
  ]

  -- The lobby's item for the garbage goroutine, and the stop after it, whatever came of it.
  unfoldable pub close_lobby : Bool → Uuid → Lobbies C → Lobbies C
  unfolding stop_lobby delete_lobby
  close_lobby saved id r = stop_lobby id (delete_lobby saved id r).0

  -- removeSession, with the whole case of `sessionGarbage`.
  unfoldable pub remove_session : Bool → Bool → Uuid → Uuid → Lobbies C → Lobbies C × Bool
  unfolding close_lobby on_garbage
  remove_session in_time saved id user r = elim (lookup id r) [
    | none ↦ (r, false)
    | some l ↦
        let (l', ok) = on_garbage user l in
        let kept = insert id l' r in
        if not l.done && in_time
        then (if len_user_session l'.sessions == 0
            then (close_lobby saved l.id kept, ok)
            else (kept, ok))
        else (r, false)
  ]

  run_on : Kind → SignalKind → Answers C → Uuid → Uuid → Lobbies C → Lobby C → Lobbies C × Reply
  unfolding reply run_command
  run_on kind k a id user r l =
      let (l', c) = run_command kind k a (new_command user) l in (insert id l' r, reply c)

  -- NewIngressResource; `session_id` is drawn by NewSession.
  unfoldable pub new_ingress_resource :
      Option Entity → Bool → Bool → Answers C → Uuid → Uuid → Uuid → Lobbies C → Lobbies C × Reply
  unfolding get_or_create_lobby new_session_in run_on
  new_ingress_resource query saved in_time a session_id id user r =
      let (r', found) = get_or_create_lobby query saved id r in
      elim found [
        | none ↦ (r', no_lobby)
        | some l ↦
            let (l', ok) = new_session_in in_time session_id user user_session l in
            let rest = run_on create_ingress silent a id user r' l' in
            if ok then rest else (insert id l' r', no_new_session)
      ]

  -- NewEgressResource
  unfoldable pub new_egress_resource :
      Option Entity → Bool → Answers C → Uuid → Uuid → Lobbies C → Lobbies C × Reply
  unfolding get_or_create_lobby run_on
  new_egress_resource query saved a id user r =
      let (r', found) = get_or_create_lobby query saved id r in
      elim found [
        | none ↦ (r', no_lobby)
        | some l ↦ run_on create_egress unidirectional a id user r' l
      ]
