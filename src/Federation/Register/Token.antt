-- ===== src/Federation/Register/Token.antt =====
-- What a wrong register token does to a registration.
use shig.Common.{
  ap, false, ite, Text-discrete, sym, none, ◌∙◌, ◌⊎◌, ℕ, Text, Option, some, ◌≡◌, ◌≢◌, refl, arith,
  true, Bool-cases, inl, inr, Bool,
}
use shig.Streams.{Result, ok, err, panicked, other_error}
use shig.Media.Response.{
  no_text, with_type, application_json, Response, write_header, http_error, set_header,
  new_response, write, Message,
}
use shig.Media.Request.{Request}
use shig.Federation.{Url, Urls, Config, Store}
use shig.Federation.ActorService.{Fetch}
use shig.Federation.Register.{
  no_text, FollowMessage, World, RegisterPayload, Registration, registration, refused, Decoded,
  get_json_account_payload, register, registered, follow_remote, ended,
}

Decoded-cases :
    (x : Decoded) → ((m : Message) × (x ≡ refused m)) ⊎ ((p : Registration) × (x ≡ registration p))
Decoded-cases (refused m) = inl (m, refl)
Decoded-cases (registration p) = inr (p, refl)

module _ {D : Type 0} (store : Store D) (urls : Urls) (fetch : Fetch)
    (signs : FollowMessage → Bool) where
  ended-state :
      (w : Response) (q : World D × Result (Unit {0}))
      → (ended store urls fetch signs w q).state ≡ q.0
  unfolding ended
  ended-state w (s, ok u) = refl
  ended-state w (s, err panicked) = refl
  ended-state w (s, err other_error) = refl
  ended-state w (s, err e) = refl

  ended-status :
      (w : Response) (c : ℕ) (q : World D × Result (Unit {0}))
      → w.status ≡ some c
      → (ended store urls fetch signs w q).response.status ≡ some c
  unfolding ended write_header
  ended-status w c (s, ok u) h = ground arith
  ended-status w c (s, err panicked) h = ground arith
  ended-status w c (s, err e) h = ground arith

  registered-state :
      (config : Config) (fresh : Text) (w : Response) (p : Registration) (s : World D)
      → (registered store urls fetch signs config fresh w p s).state
        ≡ (follow_remote store urls fetch signs config fresh p.account_iri s).0
  unfolding registered
  registered-state config fresh w p s = ended-state _ _

  registered-status :
      (config : Config) (fresh : Text) (w : Response) (p : Registration) (s : World D)
      → w.status ≡ none
      → p.token ≢ config.register_token
      → (registered store urls fetch signs config fresh w p s).response.status ≡ some 403
  unfolding registered http_error write write_header set_header
  registered-status config fresh w p s n ne = elim (Text-discrete p.token config.register_token) [
    | yes q ↦ absurd (ne q)
    | no q ↦
        ended-status
          (ite (Text-discrete p.token config.register_token) w (http_error no_text 403 w)) 403
          (follow_remote store urls fetch signs config fresh p.account_iri s) (ground arith)
  ]

  follow_remote-any_token :
      (config : Config) (t : Text) (fresh : Text) (u : Url) (s : World D)
      → follow_remote store urls fetch signs (record config { register_token = t }) fresh u s
        ≡ follow_remote store urls fetch signs config fresh u s
  unfolding follow_remote
  follow_remote-any_token config t fresh u s = refl

  register-decoded :
      (decode : Text → Option RegisterPayload) (request_uri : Text → Option Url) (config : Config)
      (fresh : Text) (r : Request) (s : World D) (p : Registration)
      → config.enable ≡ true
      → get_json_account_payload decode request_uri r ≡ registration p
      → register store urls fetch signs decode request_uri config fresh r s
        ≡ registered store urls fetch signs config fresh
            (set_header (with_type application_json) new_response)
            p
            s
  unfolding register
  register-decoded decode request_uri config fresh r s p e h = ground arith

  register-refused :
      (decode : Text → Option RegisterPayload) (request_uri : Text → Option Url) (config : Config)
      (fresh : Text) (r : Request) (s : World D)
      → (config.enable ≡ false)
        ⊎ ((m : Message) × (get_json_account_payload decode request_uri r ≡ refused m))
      → (register store urls fetch signs decode request_uri config fresh r s).state ≡ s
  unfolding register
  register-refused decode request_uri config fresh r s (inl n) = ground arith
  register-refused decode request_uri config fresh r s (inr (m, e)) = ground arith

  register-state :
      (decode : Text → Option RegisterPayload) (request_uri : Text → Option Url) (config : Config)
      (fresh : Text) (r : Request) (s : World D) (p : Registration)
      → config.enable ≡ true
      → get_json_account_payload decode request_uri r ≡ registration p
      → (register store urls fetch signs decode request_uri config fresh r s).state
        ≡ (follow_remote store urls fetch signs config fresh p.account_iri s).0
  register-state decode request_uri config fresh r s p e h =
      ap (λ x. x.state) (register-decoded decode request_uri config fresh r s p e h)
      ∙ registered-state config fresh (set_header (with_type application_json) new_response) p s

  -- Where the federation is enabled, a registration that is decoded and has a wrong token is
  -- answered with the status 403, and yet the database and the messages to send are as if the token
  -- were right: as following the remote actor leaves them.
  pub register-forbidden :
      (decode : Text → Option RegisterPayload) (request_uri : Text → Option Url) (config : Config)
      (fresh : Text) (r : Request) (s : World D) (p : Registration)
      → config.enable ≡ true
      → get_json_account_payload decode request_uri r ≡ registration p
      → p.token ≢ config.register_token
      → ((register store urls fetch signs decode request_uri config fresh r s).response.status
          ≡ some 403)
        × ((register store urls fetch signs decode request_uri config fresh r s).state
            ≡ (follow_remote store urls fetch signs config fresh p.account_iri s).0)
  unfolding new_response set_header
  register-forbidden decode request_uri config fresh r s p e h ne =
      let w = set_header (with_type application_json) new_response in
      (
        ap (λ x. x.response.status) (register-decoded decode request_uri config fresh r s p e h)
            ∙ registered-status config fresh w p s refl ne,
        register-state decode request_uri config fresh r s p e h,
      )

  -- What a registration leaves in the database and sends is the same for every register token of
  -- the instance.
  pub register-any_token :
      (decode : Text → Option RegisterPayload) (request_uri : Text → Option Url) (config : Config)
      (t : Text) (fresh : Text) (r : Request) (s : World D)
      → (register store urls fetch signs decode request_uri
          (record config { register_token = t })
          fresh
          r
          s).state
        ≡ (register store urls fetch signs decode request_uri config fresh r s).state
  register-any_token decode request_uri config t fresh r s =
      let config' = record config { register_token = t } in
      elim (Bool-cases config.enable) [
        | inr n ↦
            register-refused decode request_uri config' fresh r s (inl n)
            ∙ sym (register-refused decode request_uri config fresh r s (inl n))
        | inl y ↦ elim (Decoded-cases (get_json_account_payload decode request_uri r)) [
          | inl m ↦
              register-refused decode request_uri config' fresh r s (inr m)
              ∙ sym (register-refused decode request_uri config fresh r s (inr m))
          | inr (p, e) ↦
              register-state decode request_uri config' fresh r s p y e
              ∙ ap (λ q. q.0) (follow_remote-any_token config t fresh p.account_iri s)
              ∙ sym (register-state decode request_uri config fresh r s p y e)
        ]
      ]
