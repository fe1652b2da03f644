-- ===== src/Lobby/Manager/Joining.antt =====
-- What a request to a lobby gets.
use shig.Common.{
  lookup-insert, text_key, uuid_key, lookup, Uuid, ◌≡◌, Bool, true, Option, some, arith,
}
use shig.Lobby.Sequencer.{Entity, run_command, Lobby}
use shig.Lobby.Manager.{
  replied, no_new_session, Lobbies, Entity, new_command, run_command, new_egress_resource,
  new_ingress_resource,
}
use shig.Lobby.Repository.{Lobbies, get_lobby}
use shig.Lobby.Commands.{Answers, set_error, new_command}
use shig.Lobby.Sequencer.Replies.{closed_reply}

module _ {C : Type 0} where
  -- A lobby that is closed and still in the repository refuses every request, whatever the
  -- database, the engine and the clock do, and stays as it is.
  pub join-refused :
      (query : Option Entity) (saved in_time : Bool) (a : Answers C) (session_id id user : Uuid)
      (l : Lobby C) (r : Lobbies C)
      → lookup id r ≡ some l
      → l.done ≡ true
      → ((new_ingress_resource query saved in_time a session_id id user r).1 ≡ no_new_session)
        × (get_lobby id (new_ingress_resource query saved in_time a session_id id user r).0
            ≡ some l)
        × ((new_egress_resource query saved a id user r).1 ≡ replied (closed_reply user))
        × (get_lobby id (new_egress_resource query saved a id user r).0 ≡ some l)
  unfolding new_ingress_resource new_egress_resource get_lobby run_command new_command set_error
  join-refused query saved in_time a session_id id user l r f d =
      let stays = lookup-insert id id l r in
      (ground arith, ground (arith, stays), ground arith, ground (arith, stays))
