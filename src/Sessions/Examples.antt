-- ===== src/Sessions/Examples.antt =====
-- One input for each theorem on sessions and on the repository of a lobby's sessions.
use shig.Common.{
  true, false, none, some, [], ◌∷◌, ◌≡◌, ◌≢◌, refl, Text, arith, ◌<◌, not, is_some, if◌then◌else◌,
  ◌&&◌, ◌==◌, lookup, ℕ_discrete,
}
use shig.Sessions.Session.{
  unidirectional, begin_egress, finish_egress, ok, bidirectional, described, user_session,
  new_session, on_channel, silent, finish_ingress, messenger_ready, timeout, Signal, Session,
  open_egress, on_answer, SignalKind, begin_ingress, Slot,
}
use shig.Sessions.Repository.{Repository, new, find_by_user}
use shig.Sessions.Repository.Users.{find_by_user-new}
use shig.Sessions.Session.Steps.{
  egress_ends, egress_begins, ingress_channel, ingress_ends, ingress_begins, next, here,
  silent-no_egress, new_session-IsConnected, Reach-IsConnected, Reach, IsConnected,
}
use shig.Sessions.Session.Offers.{stale_answer, negotiate}
use shig.Rtp.Examples.{cam_endpoint, idle_endpoint, peer, Slots}

abbrev pub fresh_session : Session Slots
fresh_session = new_session false 1 10 user_session

abbrev pub cam_slot : Slot Slots
cam_slot = record { endpoint = cam_endpoint; channel = bidirectional }

abbrev signal_ready : Signal
signal_ready = record {
  has_offerer = true;
  has_messenger = true;
  offer_number = 4;
  received_messenger = true;
}

-- Both endpoints are open.
abbrev pub full_session : Session Slots
full_session = record fresh_session {
  ingress = some cam_slot;
  egress = some cam_slot;
  signal = signal_ready;
}

abbrev sdp : Text
sdp = 1 ∷ 2 ∷ []

abbrev AnyKind : SignalKind → Type 0
AnyKind k = Unit

-- An ingress endpoint is opened with a data channel, which hands over the messenger; then an egress
-- endpoint is opened.
abbrev one : Session Slots
one = (begin_ingress fresh_session).0

abbrev two : Session Slots
two = (finish_ingress one bidirectional (some cam_endpoint) (described sdp)).0

abbrev three : Session Slots
three = on_channel cam_slot.channel two

abbrev four : Session Slots
four = (begin_egress three).0

abbrev five : Session Slots
five = (finish_egress four messenger_ready unidirectional (some cam_endpoint) (described sdp)).0

opened : Reach peer AnyKind fresh_session five
unfolding begin_ingress finish_ingress begin_egress finish_egress on_channel new_session
opened =
    next
      (next
        (next
          (next (next here (ingress_begins fresh_session refl))
            (ingress_ends one bidirectional (some cam_endpoint) (described sdp) refl tt))
          (ingress_channel two cam_slot refl))
        (egress_begins three refl))
      (egress_ends four messenger_ready unidirectional (some cam_endpoint) (described sdp) refl
        refl)

Reach-IsConnected_example : IsConnected peer five
Reach-IsConnected_example =
    Reach-IsConnected peer opened (new_session-IsConnected peer false 1 10 user_session)

silent-no_egress_example :
    (fresh_session.egress ≡ none)
    × ((open_egress fresh_session timeout silent (some idle_endpoint) (described sdp)).1 ≢ ok sdp)
silent-no_egress_example =
    silent-no_egress peer false 1 10 user_session timeout silent (some idle_endpoint)
      (described sdp) sdp here tt

stale_answer_example :
    ((on_answer 4 sdp (negotiate 3 full_session)).applied ≡ [])
    × (0 < 3 → on_answer 4 sdp (negotiate 3 full_session) ≡ negotiate 3 full_session)
unfolding new_session
stale_answer_example =
    stale_answer 3 sdp full_session cam_slot refl refl refl (ground arith) (ground arith)

abbrev pub other_session : Session Slots
other_session = new_session false 2 20 user_session

abbrev pub two_users : Repository Slots
two_users = (1, full_session) ∷ (2, other_session) ∷ []

find_by_user-new_example :
    ((new other_session ((1, full_session) ∷ [])).1
      ≡ not (is_some (find_by_user other_session.user ((1, full_session) ∷ []))))
    × (find_by_user 20 (new other_session ((1, full_session) ∷ [])).0 ≡ (
        if (new other_session ((1, full_session) ∷ [])).1 && other_session.user == 20
        then some other_session
        else find_by_user 20 ((1, full_session) ∷ [])))
unfolding new_session lookup ℕ_discrete
find_by_user-new_example = find_by_user-new other_session ((1, full_session) ∷ []) 20 refl
