-- ===== src/Media/Whip/Manager.antt =====
-- The handlers on the lobby manager of internal/lobby/lobby_manager.go, whose LeaveLobby does
-- nothing. What the database, the engine and the clock answer is the same for each call.
use shig.Common.{
  Option-cases, inl, inr, Uuid, Text, Option, none, some, Bool, true, false, ℕ, ◌≡◌, ◌≢◌, lookup,
  uuid_key, arith, [], ◌∷◌,
}
use shig.Lobby.Manager.{
  Reply, no_lobby, no_new_session, time_out, replied, new_ingress_resource, new_egress_resource,
}
use shig.Lobby.Manager.Joining.{join-refused}
use shig.Lobby.Sequencer.{Entity, Lobby}
use shig.Lobby.Repository.{Lobbies, get_lobby}
use shig.Lobby.Commands.{Answers, Command}
use shig.Streams.{Database}
use shig.Media.Response.{with_type, application_sdp, set_header, new_response}
use shig.Media.Request.{session_user, get_live_stream, get_live_stream, Request}
use shig.Media.Request.Steps.{Got-cases, resource_error_lem, Got-cases}
use shig.Media.Whip.{
  World, LobbyManager, Joined, joined, join_error, no_resource, left, whip, whip_delete,
}
use shig.Media.Whip.Created.{Names}
use shig.Auth.RequestToken.{get_principal}

unfoldable pub of_command : (Uuid → Text) → Command → Joined
of_command print c = elim c.errs [
  | e ∷ es ↦ join_error
  | [] ↦ elim c.response [ none ↦ no_resource | some r ↦ joined r.1 (print r.0) ]
]

unfoldable pub of_reply : (Uuid → Text) → Reply → Joined
unfolding of_command
of_reply print no_lobby = join_error
of_reply print no_new_session = join_error
of_reply print time_out = join_error
of_reply print (replied c) = of_command print c

module _ {C : Type 0} (print : Uuid → Text) (query : Option Entity) (saved in_time : Bool)
    (a : Answers C) (session_id : Uuid) where
  joining : Lobbies C × Reply → Lobbies C × Joined
  unfolding of_reply
  joining (r, reply) = (r, of_reply print reply)

  unfoldable pub manager : LobbyManager (Lobbies C)
  unfolding joining
  manager = record {
    create_ingress = λ id user offer r.
        joining (new_ingress_resource query saved in_time a session_id id user r);
    create_egress = λ id user offer r. joining (new_egress_resource query saved a id user r);
    leave_lobby = λ id user r. (r, left false);
  }

  module _ {D : Type 0} (db : Database D) (parse : Text → Option Uuid) (md5 : Text → Text) where
    -- A whip request that names a stream with a lobby, an offer and a user is answered with the
    -- status 500 if the lobby is closed and still in the repository, and that lobby stays as it is.
    pub whip-closed :
        (fresh : Text) (now : ℕ) (r : Request) (world : World (Lobbies C) D)
        (n : Names db manager parse md5 r world r.principal) (l : Lobby C)
        → lookup n.lobby_id world.lobbies ≡ some l
        → l.done ≡ true
        → ((whip db manager parse md5 fresh now r world).response.status ≡ some 500)
          × (get_lobby n.lobby_id (whip db manager parse md5 fresh now r world).state.lobbies
              ≡ some l)
    unfolding whip manager
    whip-closed fresh now r world n l f d = ground (
      arith,
      join-refused query saved in_time a session_id n.lobby_id n.user_id l world.lobbies f d,
    )

    -- The lobby manager's LeaveLobby lets nobody leave, so no request to delete a resource is
    -- answered with the status 200, and none changes the lobbies, the database or the request
    -- tokens.
    pub whip_delete-fails :
        (r : Request) (world : World (Lobbies C) D)
        → ((whip_delete db manager parse md5 r world).response.status ≢ some 200)
          × ((whip_delete db manager parse md5 r world).state ≡ world)
    unfolding whip_delete manager
    whip_delete-fails r world =
        let w = set_header (with_type application_sdp) new_response in
        elim (Option-cases (session_user (get_principal r.cookie))) [
          | inl n ↦ ground arith
          | inr (user, hu) ↦ elim (Option-cases (parse user)) [
            | inl n ↦ ground arith
            | inr (u, hp) ↦ elim (Got-cases (get_live_stream db parse r world.database)) [
              | inr (re, p) ↦ ground (arith, resource_error_lem world w re)
              | inl (s, p) ↦ elim (Option-cases s.lobby) [
                | inl n ↦ ground arith
                | inr (id, q) ↦ ground arith
              ]
            ]
          ]
        ]
