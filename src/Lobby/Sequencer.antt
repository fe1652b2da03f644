-- ===== src/Lobby/Sequencer.antt =====
-- internal/lobby/lobby.go: the goroutine that takes a lobby's sessions and commands one at a time.
-- Connecting to the instance that hosts the stream is an environment that sends such events.
pub mod Users
pub mod Replies
use shig.Common.{
  text_key, uuid_key, ◌&&◌, if◌then◌else◌, insert, not, Uuid, Text, Bool, true, false, Option, none,
  some, List, [], ◌∷◌,
}
use shig.Sessions.Session.{Session, SessionType, SignalKind, Wait, new_session}
use shig.Sessions.Repository.{Repository, new, find_by_user, delete_by_user}
use shig.Sessions.Hub.{Hub, new_hub}
use shig.Lobby.Commands.{
  Command, Kind, OfferKind, Answers, execute, execute_offer, set_error, no_session, lobby_closed,
}

-- internal/lobby/lobby_entity.go
pub record Entity : Type 0 where
  pub uuid : Uuid
  pub live_stream_id : Uuid
  pub space : Text
  pub is_running : Bool
  pub is_live : Bool
  pub host : Text

pub record Lobby (C : Type 0) : Type 0 where
  pub id : Uuid
  pub entity : Entity
  pub done : Bool
  pub hub : Hub
  pub sessions : Repository C

-- newLobby gives its hub no sender.
unfoldable pub new_lobby : {C : Type 0} → Entity → Lobby C
new_lobby entity = record {
  id = entity.uuid;
  entity = entity;
  done = false;
  hub = new_hub none;
  sessions = [];
}

module _ {C : Type 0} where
  -- The case of `sessionCreator`; the id is what `uuid.New` returned. The answer is sent to the
  -- caller of newSession.
  unfoldable pub on_create : Uuid → Uuid → SessionType → Lobby C → Lobby C × Bool
  on_create id user session_type l =
      let (sessions, ok) = new (new_session l.done id user session_type) l.sessions in
      if l.done then (l, false) else (record l { sessions = sessions }, ok)

  -- The answer of `sessionGarbage` before the lobby's own end is considered.
  unfoldable pub on_garbage : Uuid → Lobby C → Lobby C × Bool
  on_garbage user l =
      let (sessions, ok) = delete_by_user user l.sessions in (record l { sessions = sessions }, ok)

  -- A session is a pointer in the repository.
  store_session : Lobby C → Session C × Command → Lobby C × Command
  store_session l (s, c) =
      (record l { sessions = insert s.id s l.sessions }, set_error no_session c)

  -- handle, of a create command: SetError comes after each Execute, too.
  unfoldable pub handle : Kind → SignalKind → Answers C → Command → Lobby C → Lobby C × Command
  unfolding store_session
  handle kind k a c l = elim (find_by_user c.user l.sessions) [
    | none ↦ (l, set_error no_session c)
    | some s ↦ store_session l (execute kind k a s c)
  ]

  -- handle, of an offer command. A panic in the sequencer ends the program, which is `none`.
  unfoldable pub handle_offer : OfferKind → Wait → Command → Lobby C → Option (Lobby C × Command)
  unfolding store_session
  handle_offer kind w c l = elim (find_by_user c.user l.sessions) [
    | none ↦ some (l, set_error no_session c)
    | some s ↦ elim (execute_offer kind w s c) [ none ↦ none | some r ↦ some (store_session l r) ]
  ]

  -- runCommand, with the case of `cmdRunner`: the answer is the same whether the lobby is found
  -- closed by the caller or by the sequencer.
  unfoldable pub run_command : Kind → SignalKind → Answers C → Command → Lobby C → Lobby C × Command
  unfolding handle
  run_command kind k a c l = if l.done then (l, set_error lobby_closed c) else handle kind k a c l

  unfoldable pub run_offer : OfferKind → Wait → Command → Lobby C → Option (Lobby C × Command)
  unfolding handle_offer
  run_offer kind w c l =
      if l.done then some (l, set_error lobby_closed c) else handle_offer kind w c l

  -- newSession and removeSession. A closed sequencer receives nothing: the caller's `select` takes
  -- another case. `in_time` says that the sequencer took the item before the timer.
  unfoldable pub new_session_in : Bool → Uuid → Uuid → SessionType → Lobby C → Lobby C × Bool
  unfolding on_create
  new_session_in in_time id user session_type l =
      if not l.done && in_time then on_create id user session_type l else (l, false)
