-- ===== src/Lobby/Examples.antt =====
-- One input for each theorem on commands, the sequencer of a lobby and the manager.
use shig.Common.{
  ◌==◌, if◌then◌else◌, delete, ℕ_discrete, lookup, true, false, none, some, [], ◌∷◌, ◌≡◌, refl, ◌↔◌,
}
use shig.Lobby.Sequencer.{run_offer, run_command, Entity, new_lobby, Lobby}
use shig.Lobby.Repository.{get_lobby, Lobbies}
use shig.Lobby.Commands.{new_command, offers_ingress, create_ingress, Answers}
use shig.Sessions.Session.{
  user_session, described, instance_session, timeout, new_session, silent, Session,
}
use shig.Sessions.Repository.{len_user_session, len, delete_by_user, find_by_user}
use shig.Rtp.Examples.{idle_endpoint, Slots}
use shig.Lobby.Manager.{
  replied, new_egress_resource, remove_session, no_new_session, new_ingress_resource,
}
use shig.Sessions.Examples.{fresh_session}
use shig.Lobby.Sequencer.Replies.{
  closed_reply, run_offer-panics, MayOffer, run_command-replies, expected_reply,
}
use shig.Sessions.Repository.Users.{IsUnique}
use shig.Lobby.Sequencer.Users.{take_event-IsUnique, creates, take_event}
use shig.Lobby.Manager.Leaving.{remove_session-strands, remove_session-cleans, is_stranded}
use shig.Lobby.Manager.Joining.{join-refused}

abbrev entity : Entity
entity = record {
  uuid = 5;
  live_stream_id = 6;
  space = [];
  is_running = true;
  is_live = false;
  host = [];
}

abbrev empty_lobby : Lobby Slots
empty_lobby = new_lobby entity

abbrev user_lobby : Lobby Slots
user_lobby = record empty_lobby { sessions = (1, fresh_session) ∷ [] }

-- The session that a remote instance has in the lobby.
abbrev instance_entry : Session Slots
instance_entry = new_session false 2 20 instance_session

abbrev mixed_lobby : Lobby Slots
mixed_lobby = record empty_lobby { sessions = (1, fresh_session) ∷ (2, instance_entry) ∷ [] }

abbrev answers : Answers Slots
answers = record { engine = some idle_endpoint; wait = timeout; description = described (1 ∷ []) }

run_command-replies_example :
    (run_command create_ingress silent answers (new_command 10) user_lobby).1
    ≡ expected_reply create_ingress silent answers 10 user_lobby
unfolding new_lobby
run_command-replies_example = run_command-replies create_ingress silent answers 10 user_lobby

run_offer-panics_example : (run_offer offers_ingress timeout (new_command 10) user_lobby ≡ none) ↔ (
    (user_lobby.done ≡ false)
    × (s : Session Slots) × (find_by_user 10 user_lobby.sessions ≡ some s)
    × MayOffer offers_ingress timeout s)
unfolding new_command
run_offer-panics_example = run_offer-panics offers_ingress timeout (new_command 10) user_lobby

take_event-IsUnique_example : IsUnique (take_event (creates 2 20 user_session) user_lobby).sessions
unfolding new_lobby lookup ℕ_discrete new_session
take_event-IsUnique_example =
    take_event-IsUnique (creates 2 20 user_session) user_lobby refl (refl, tt, tt)

remove_session-cleans_example :
    get_lobby 5 (remove_session true true 5 10 ((5, user_lobby) ∷ [])).0
    ≡ (if 5 == 5 then none else get_lobby 5 ((5, user_lobby) ∷ []))
unfolding new_lobby lookup ℕ_discrete new_session delete_by_user delete
remove_session-cleans_example =
    remove_session-cleans 5 10 5 user_lobby ((5, user_lobby) ∷ []) refl refl refl refl

remove_session-strands_example :
    is_stranded (get_lobby 5 (remove_session true true 5 10 ((5, mixed_lobby) ∷ [])).0) ≡ true
unfolding new_lobby lookup ℕ_discrete new_session delete_by_user delete len len_user_session
remove_session-strands_example =
    remove_session-strands true 5 10 mixed_lobby ((5, mixed_lobby) ∷ []) refl refl refl refl refl

abbrev closed_lobby : Lobby Slots
closed_lobby = record mixed_lobby { done = true }

abbrev lobbies : Lobbies Slots
lobbies = (5, closed_lobby) ∷ []

join-refused_example :
    ((new_ingress_resource none true true answers 9 5 30 lobbies).1 ≡ no_new_session)
    × (get_lobby 5 (new_ingress_resource none true true answers 9 5 30 lobbies).0
        ≡ some closed_lobby)
    × ((new_egress_resource none true answers 5 30 lobbies).1 ≡ replied (closed_reply 30))
    × (get_lobby 5 (new_egress_resource none true answers 5 30 lobbies).0 ≡ some closed_lobby)
unfolding lookup ℕ_discrete
join-refused_example = join-refused none true true answers 9 5 30 closed_lobby lobbies refl refl
