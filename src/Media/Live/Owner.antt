-- ===== src/Media/Live/Owner.antt =====
-- Whose live stream a request may publish or stop.
use shig.Common.{
  Uuid, Text, Text-discrete, Option, some, true, is_some, ◌≡◌, ◌≢◌, ◌⊎◌, inl, inr, refl, arith,
  Option-cases,
}
use shig.Auth.RequestToken.{get_principal}
use shig.Streams.{LiveStream, Database, Account}
use shig.Media.Response.{new_response, set_header, with_type, application_json}
use shig.Media.Request.{Request, get_live_stream, session_user, got}
use shig.Media.Request.Steps.{Got-cases, resource_error_lem}
use shig.Media.Whip.{World}
use shig.Media.Live.{LiveManager, get_json_payload, publish_live_stream, stop_live_stream}

module _ {S D : Type 0} (db : Database D) (parse : Text → Option Uuid) (live : LiveManager S)
    (decode : Text → Option (Text × Text)) (r : Request) (world : World S D) where
  -- The stream that the request names, the user of its session and the stream's account.
  pub record Names : Type 0 where
    pub stream : LiveStream
    pub user : Text
    pub account : Account
    pub is_stream : get_live_stream db parse r world.database ≡ got stream
    pub is_user : session_user (get_principal r.cookie) ≡ some user
    pub has_account : stream.account ≡ some account

  -- If the request names a stream with an account and its session has another user than the
  -- account's, then publishing and stopping answer 403 and change nothing; but stopping panics, and
  -- publishing panics exactly if its payload is valid.
  pub live-not_owner :
      (n : Names)
      → n.account.uuid ≢ n.user
      → ((publish_live_stream db parse live decode r world).response.status ≡ some 403)
        × ((publish_live_stream db parse live decode r world).state ≡ world)
        × ((publish_live_stream db parse live decode r world).panics
            ≡ is_some (get_json_payload decode r))
        × ((stop_live_stream db parse live r world).response.status ≡ some 403)
        × ((stop_live_stream db parse live r world).state ≡ world)
        × ((stop_live_stream db parse live r world).panics ≡ true)
  unfolding publish_live_stream stop_live_stream
  live-not_owner n ne = elim (Option-cases (get_json_payload decode r)) [
    | inl p ↦ ground arith
    | inr (info, p) ↦ ground arith
  ]

  -- The request names a stream whose account is that of the session's user, or else publishing and
  -- stopping its live stream do not answer 201 and change nothing.
  pub live-owner :
      ((n : Names) × (n.account.uuid ≡ n.user))
      ⊎ (((publish_live_stream db parse live decode r world).response.status ≢ some 201)
          × ((publish_live_stream db parse live decode r world).state ≡ world)
          × ((stop_live_stream db parse live r world).response.status ≢ some 201)
          × ((stop_live_stream db parse live r world).state ≡ world))
  unfolding publish_live_stream stop_live_stream
  live-owner =
      let w = set_header (with_type application_json) new_response in
      elim (Got-cases (get_live_stream db parse r world.database)) [
        | inr (re, p) ↦ inr (ground (arith, resource_error_lem world w re refl))
        | inl (s, p) ↦ elim (Option-cases (session_user (get_principal r.cookie))) [
          | inl n ↦ inr (ground arith)
          | inr (user, hu) ↦ elim (Option-cases s.account) [
            | inl n ↦ inr (ground arith)
            | inr (account, h) ↦ elim (Text-discrete account.uuid user) [
              | yes e ↦ inl (
                record {
                  stream = s;
                  user = user;
                  account = account;
                  is_stream = p;
                  is_user = hu;
                  has_account = h;
                },
                e,
              )
              | no ne ↦ inr (ground arith)
            ]
          ]
        ]
      ]
