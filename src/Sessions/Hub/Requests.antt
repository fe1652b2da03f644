-- ===== src/Sessions/Hub/Requests.antt =====
-- The hub's own state after a run of requests.
use shig.Common.{
  lookup-delete, lookup-insert, inr, inl, Option-cases, is_some, ◌||◌, Text-discrete, text_key,
  uuid_key, ite, lookup, not, Text, ◌≡◌, Bool, false, Option, none, some, List, [], ◌∷◌, arith,
}
use shig.Rtp.Track.{TrackInfo}
use shig.Rtp.Endpoint.{Peer}
use shig.Sessions.Repository.{Repository}
use shig.Sessions.Hub.{
  counted_remove, remove_live, counted_add, add_live, Hub, Request, SenderCall, add_track,
  remove_track, mute_track, get_track_list, handle, run, call_sender, filter_for_not_main,
}

-- What a request says about a track.
unfoldable pub word : Text → Request → Option TrackInfo → Option TrackInfo
word t (add_track wins info) before = ite (Text-discrete info.track t) (some info) before
word t (remove_track wins info) before = ite (Text-discrete info.track t) none before
word t _ before = before

-- What a list of requests says about a track: its last addition or removal.
unfoldable pub last_word : Text → List Request → Option TrackInfo → Option TrackInfo
unfolding word
last_word t [] before = before
last_word t (q ∷ qs) before = last_word t qs (word t q before)

-- The request is about a track of the main stream, for which the sender is called.
abbrev pub is_main_request : Request → Bool
is_main_request (add_track wins info) = not (filter_for_not_main info)
is_main_request (remove_track wins info) = not (filter_for_not_main info)
is_main_request _ = false

unfoldable pub has_main_request : List Request → Bool
has_main_request [] = false
has_main_request (q ∷ qs) = is_main_request q || has_main_request qs

call_sender-tracks :
    (call : SenderCall) (info : TrackInfo) (h h' : Hub)
    → call_sender call info h ≡ some h'
    → (h'.tracks ≡ h.tracks) × (is_some h'.sender ≡ is_some h.sender)
unfolding call_sender
call_sender-tracks call info h h' e = ground arith

call_sender-returns :
    (call : SenderCall) (info : TrackInfo) (h : Hub)
    → is_some (call_sender call info h) ≡ (is_some h.sender || filter_for_not_main info)
unfolding call_sender
call_sender-returns call info h = ground arith

module _ {C : Type 0} (pc : Peer C) (enabled : Bool) where
  handle-tracks :
      (q : Request) (st st' : Hub × Repository C) (t : Text)
      → handle pc enabled q st ≡ some st'
      → (lookup t st'.0.tracks ≡ word t q (lookup t st.0.tracks))
        × (is_some st'.0.sender ≡ is_some st.0.sender)
  unfolding handle word counted_add counted_remove
  handle-tracks (add_track wins info) (h, r) (h', r') t e =
      let counted : Hub = counted_add enabled info h in
      elim (Option-cases (call_sender (add_live info.track) info counted)) [
        | inl p ↦ absurd (ground arith)
        | inr (h1, p) ↦ ground (
          arith,
          call_sender-tracks (add_live info.track) info counted h1 p,
          lookup-insert info.track t info h1.tracks,
        )
      ]
  handle-tracks (remove_track wins info) (h, r) (h', r') t e =
      let counted : Hub = counted_remove enabled info h in
      elim (Option-cases (call_sender (remove_live info.track) info counted)) [
        | inl p ↦ absurd (ground arith)
        | inr (h1, p) ↦ ground (
          arith,
          call_sender-tracks (remove_live info.track) info counted h1 p,
          lookup-delete info.track t h1.tracks,
        )
      ]
  handle-tracks (mute_track info) (h, r) (h', r') t e = ground arith
  handle-tracks (get_track_list id filters) (h, r) (h', r') t e = ground arith

  handle-returns :
      (q : Request) (st : Hub × Repository C)
      → is_some (handle pc enabled q st) ≡ (is_some st.0.sender || not (is_main_request q))
  unfolding handle counted_add counted_remove
  handle-returns (add_track wins info) (h, r) =
      ground (arith, call_sender-returns (add_live info.track) info (counted_add enabled info h))
  handle-returns (remove_track wins info) (h, r) =
      ground
        (arith, call_sender-returns (remove_live info.track) info (counted_remove enabled info h))
  handle-returns (mute_track info) (h, r) = ground arith
  handle-returns (get_track_list id filters) (h, r) = ground arith

  -- If the hub's goroutine survives the requests, the hub then holds a track exactly if the last
  -- request about it was an addition, with that request's description, or if no request was about it
  -- and the hub held it before, with the description that it had.
  pub run-tracks :
      (qs : List Request) (st st' : Hub × Repository C) (t : Text)
      → run pc enabled qs st ≡ some st'
      → lookup t st'.0.tracks ≡ last_word t qs (lookup t st.0.tracks)
  unfolding run last_word
  run-tracks [] st st' t e = ground arith
  run-tracks (q ∷ qs) st st' t e = elim (Option-cases (handle pc enabled q st)) [
    | inl p ↦ absurd (ground arith)
    | inr (mid, p) ↦ rw (← (handle-tracks q st mid t p).0) (run-tracks qs mid st' t (ground arith))
  ]

  -- The hub's goroutine survives a list of requests exactly if it has a sender or none of the
  -- requests adds or removes a track of the main stream.
  pub run-returns :
      (qs : List Request) (st : Hub × Repository C)
      → is_some (run pc enabled qs st) ≡ (is_some st.0.sender || not (has_main_request qs))
  unfolding run has_main_request
  run-returns [] st = ground arith
  run-returns (q ∷ qs) st = elim (Option-cases (handle pc enabled q st)) [
    | inl p ↦ ground (arith, handle-returns q st)
    | inr (mid, p) ↦
        ground (arith, handle-returns q st, run-returns qs mid, (handle-tracks q st mid [] p).1)
  ]
