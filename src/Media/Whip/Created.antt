-- ===== src/Media/Whip/Created.antt =====
-- When whip and whep answer that the endpoint is created.
use shig.Common.{
  ◌↔◌, inl, inr, Option-cases, refl, none, ◌≢◌, true, Uuid, Text, Option, some, ℕ, ◌≡◌, arith,
  if◌then◌else◌,
}
use shig.Streams.{LiveStream, Database}
use shig.Media.Response.{
  error_build_whep, Message, application_sdp, with_type, Header, error, error_build_whip, write,
  write_header, Response, new_response, set_header, http_error,
}
use shig.Media.Request.{
  session_error, session_user, get_user_from_session, ResourceError, space_request_id_not_found,
  stream_request_id_not_found, not_found_stream, other_resource, nil_resource, resource_error,
  Request, finish, or_stop, get_live_stream, or_resource, get_sdp_payload, payload, start_session,
  got,
}
use shig.Media.Request.Steps.{session_error-status, Got-cases, Payload-cases}
use shig.Media.Whip.{
  World, Out, LobbyManager, Joined, joined, already_exists, join_error, no_resource, whip, whep,
  answered, or_bad_payload, join,
}
use shig.Auth.RequestToken.{get_principal, set_new_request_token}

module _ {S D : Type 0} where
  abbrev pub IsCreated : Out S D → Type 0
  IsCreated h = h.response.status ≡ some 201

  answered-created :
      (md5 : Text → Text) (r : Request) (m : Message) (world : World S D) (w : Response)
      (j : Joined)
      → w.status ≢ some 201
      → IsCreated (answered md5 r m world w j)
      → (w.status ≡ none) × ((a : Text) × (resource : Text) × (j ≡ joined a resource))
  unfolding answered http_error set_header write_header write
  answered-created md5 r m world w already_exists ne e = absurd (ground arith)
  answered-created md5 r m world w no_resource ne e = absurd (ne e)
  answered-created md5 r m world w join_error ne e = absurd (ground arith)
  answered-created md5 r m world w (joined a resource) ne e = (ground arith, (a, resource, refl))

  resource-not-IsCreated :
      (world : World S D) (w : Response) (e : ResourceError)
      → w.status ≢ some 201
      → ¬ IsCreated (resource_error world w e)
  unfolding resource_error http_error write_header set_header
  resource-not-IsCreated world w space_request_id_not_found ne h = ground arith
  resource-not-IsCreated world w stream_request_id_not_found ne h = ground arith
  resource-not-IsCreated world w not_found_stream ne h = ground arith
  resource-not-IsCreated world w other_resource ne h = ground arith
  resource-not-IsCreated world w nil_resource ne h = ground arith

  module _ (db : Database D) (lobby : LobbyManager S) (parse : Text → Option Uuid)
      (md5 : Text → Text) where
    -- What a request has to name: a stream with its lobby, an offer and a user.
    pub record Names (r : Request) (world : World S D) (name : Option Text) : Type 0 where
      pub stream : LiveStream
      pub lobby_id : Uuid
      pub offer : Text
      pub user : Text
      pub user_id : Uuid
      pub is_stream : get_live_stream db parse r world.database ≡ got stream
      pub has_lobby : stream.lobby ≡ some lobby_id
      pub has_offer : get_sdp_payload r ≡ payload offer
      pub has_user : name ≡ some user
      pub is_uuid : parse user ≡ some user_id

    -- The lobby's answer to an offer.
    abbrev pub answer :
        (create : Uuid → Uuid → Text → S → S × Joined) (world : World S D) {r : Request}
        {name : Option Text} (n : Names r world name)
        → S × Joined
    answer create world n = create n.lobby_id n.user_id n.offer world.lobbies

    -- A whip request that names a stream with a lobby, an offer and a user is passed to the lobby,
    -- whether or not the session could be started: if the lobby joins, the lobbies are as the join
    -- leaves them, and the status is 201 if the session was started, and else 500.
    pub whip-joins :
        (fresh : Text) (now : ℕ) (r : Request) (world : World S D) (n : Names r world r.principal)
        (a resource : Text)
        → (answer lobby.create_ingress world n).1 ≡ joined a resource
        → ((whip db lobby parse md5 fresh now r world).state.lobbies
            ≡ (answer lobby.create_ingress world n).0)
          × ((whip db lobby parse md5 fresh now r world).response.status
              ≡ some (if start_session parse r then 201 else 500))
    unfolding whip finish or_resource or_stop or_bad_payload join answered http_error new_response
        set_header
    whip-joins fresh now r world n a resource e = ground arith

    abbrev pub Accepted :
        (create : Uuid → Uuid → Text → S → S × Joined) (r : Request) (world : World S D)
        (name : Option Text)
        → Type 0
    Accepted create r world name =
        (n : Names r world name) × (a : Text) × (resource : Text) × ((answer create world n).1
          ≡ joined a resource)

    -- The answer of a handler's last part has the status 201 only from a lobby that joined.
    join-created :
        (create : Uuid → Uuid → Text → S → S × Joined) (m : Message) (r : Request)
        (world : World S D) (w : Response) (l : Option Uuid) (user : Uuid) (offer : Text)
        → w.status ≢ some 201
        → IsCreated (join db lobby parse md5 create m r world w l user offer)
        → (w.status ≡ none)
          × ((id : Uuid) × (a : Text) × (resource : Text) × (l ≡ some id)
              × ((create id user offer world.lobbies).1 ≡ joined a resource))
    unfolding join
    join-created create m r world w none user offer ne e = absurd (ne e)
    join-created create m r world w (some id) user offer ne e =
        let c = create id user offer world.lobbies in
        let (fresh, (a, resource, p)) =
          answered-created md5 r m (record world { lobbies = c.0 }) w c.1 ne e in
        (fresh, (id, a, resource, refl, p))

    -- whip answers 201 only if the session was started, the request names all it has to and the
    -- lobby joined.
    whip-Accepted :
        (fresh : Text) (now : ℕ) (r : Request) (world : World S D)
        → IsCreated (whip db lobby parse md5 fresh now r world)
        → (start_session parse r ≡ true) × Accepted lobby.create_ingress r world r.principal
    unfolding whip or_resource or_stop or_bad_payload finish http_error write_header write
        set_header new_response
    whip-Accepted fresh now r world e =
        let w0 = set_header (with_type application_sdp) new_response in
        let w = if start_session parse r then w0 else http_error error 500 w0 in
        let w' = set_header (λ (h : Header). record h { request_token = some fresh }) w in
        let ne : w.status ≢ some 201 = ground arith in
        elim (Got-cases (get_live_stream db parse r world.database)) [
          | inr (re, p) ↦ absurd (resource-not-IsCreated world w re ne (ground arith))
          | inl (s, p) ↦ elim (Payload-cases (get_sdp_payload r)) [
            | inr (m, q) ↦ absurd (ground arith)
            | inl (offer, q) ↦ elim (Option-cases r.principal) [
              | inl n ↦ absurd (ground arith)
              | inr (user, hu) ↦ elim (Option-cases (parse user)) [
                | inl n ↦ absurd (ground arith)
                | inr (u, hp) ↦
                    let world' : World S D = record world {
                      tokens = set_new_request_token world.tokens user fresh now;
                    } in
                    let (st, (id, a, resource, hl, hj)) =
                      join-created lobby.create_ingress error_build_whip r world' w' s.lobby u offer
                        ne (ground arith) in
                    (
                      ground arith,
                      (
                        record {
                          stream = s;
                          lobby_id = id;
                          offer = offer;
                          user = user;
                          user_id = u;
                          is_stream = p;
                          has_lobby = hl;
                          has_offer = q;
                          has_user = hu;
                          is_uuid = hp;
                        },
                        a,
                        resource,
                        hj,
                      ),
                    )
              ]
            ]
          ]
        ]

    -- whip answers 201 exactly if the session was started, the request names a stream of its space
    -- that has a lobby, an SDP offer and a user with a UUID, and the lobby joins this user by this
    -- offer.
    pub whip-IsCreated :
        (fresh : Text) (now : ℕ) (r : Request) (world : World S D)
        → IsCreated (whip db lobby parse md5 fresh now r world)
          ↔ ((start_session parse r ≡ true) × Accepted lobby.create_ingress r world r.principal)
    whip-IsCreated fresh now r world = (
      whip-Accepted fresh now r world,
      λ h.
          let (st, (n, a, resource, j)) = h in
          let done = whip-joins fresh now r world n a resource j in ground (arith, done),
    )

    whep-joins :
        (r : Request) (world : World S D)
        (n : Names r world (session_user (get_principal r.cookie))) (a resource : Text)
        → (answer lobby.create_egress world n).1 ≡ joined a resource
        → IsCreated (whep db lobby parse md5 r world)
    unfolding whep finish or_resource or_stop or_bad_payload join answered http_error new_response
        set_header get_user_from_session
    whep-joins r world n a resource e = ground arith

    whep-Accepted :
        (r : Request) (world : World S D)
        → IsCreated (whep db lobby parse md5 r world)
        → Accepted lobby.create_egress r world (session_user (get_principal r.cookie))
    unfolding whep or_resource or_stop or_bad_payload finish http_error write_header write
        set_header new_response get_user_from_session session_error
    whep-Accepted r world e =
        let w = set_header (with_type application_sdp) new_response in
        let ne : w.status ≢ some 201 = ground arith in
        elim (Option-cases (session_user (get_principal r.cookie))) [
          | inl n ↦ absurd (session_error-status (get_principal r.cookie) w ne (ground arith))
          | inr (user, hu) ↦ elim (Option-cases (parse user)) [
            | inl n ↦ absurd (ground arith)
            | inr (u, hp) ↦ elim (Got-cases (get_live_stream db parse r world.database)) [
              | inr (re, p) ↦ absurd (resource-not-IsCreated world w re ne (ground arith))
              | inl (s, p) ↦ elim (Payload-cases (get_sdp_payload r)) [
                | inr (m, q) ↦ absurd (ground arith)
                | inl (offer, q) ↦
                    let (_, (id, a, resource, hl, hj)) =
                      join-created lobby.create_egress error_build_whep r world w s.lobby u offer ne
                        (ground arith) in
                    (
                      record {
                        stream = s;
                        lobby_id = id;
                        offer = offer;
                        user = user;
                        user_id = u;
                        is_stream = p;
                        has_lobby = hl;
                        has_offer = q;
                        has_user = hu;
                        is_uuid = hp;
                      },
                      a,
                      resource,
                      hj,
                    )
              ]
            ]
          ]
        ]

    -- whep answers 201 exactly if the session has a user with a UUID, the request names a stream of
    -- its space that has a lobby and an SDP offer, and the lobby joins this user by this offer.
    pub whep-IsCreated :
        (r : Request) (world : World S D)
        → IsCreated (whep db lobby parse md5 r world)
          ↔ Accepted lobby.create_egress r world (session_user (get_principal r.cookie))
    whep-IsCreated r world = (
      whep-Accepted r world,
      λ h. let (n, a, resource, j) = h in whep-joins r world n a resource j,
    )
