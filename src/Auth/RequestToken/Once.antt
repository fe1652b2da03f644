-- ===== src/Auth/RequestToken/Once.antt =====
-- A request token is good for one request.
use shig.Common.{
  ◌<◌, ◌+◌, ◌∷◌, [], none, some, Option, inl, inr, ◌⊎◌, Bool-cases, lookup-insert, arith, refl, ◌≡◌,
  ◌≢◌, ◌↔◌, Text, ℕ, text_key,
}
use shig.Auth.RequestToken.{
  token_middleware, user, no_user, not_read, not_authenticated, Principal, Values, get_principal,
  set_new_request_token, expiration, check_token, set, get, get_token,
}
use shig.Storage.{Memory, Item, get, set, expiry, is_expired, u32}
use shig.Storage.Expiry.{get-set}

-- The handler is called exactly if the request's token is not empty and is the one that is stored
-- for the user that the cookie names as logged in, and has not expired.
pub token_middleware-accepts :
    (m : Memory Text) (token : Text) (v : Option Values) (fresh : Text) (now : ℕ) (id : Text)
    → get_principal v ≡ user id
    → ((token_middleware m token v fresh now).1 ≡ some fresh)
      ↔ ((token ≢ []) × (get m id now ≡ some token))
unfolding token_middleware get_token
token_middleware-accepts m [] v fresh now id p = ((λ e. absurd (cc e)), (λ h. absurd (h.0 refl)))
token_middleware-accepts m (c ∷ cs) v fresh now id p = ((λ h. ground arith), (λ h. ground arith))

get-after :
    (m : Memory Text) (id fresh : Text) (now later : ℕ)
    → (get (set_new_request_token m id fresh now) id later ≡ none)
      ⊎ (get (set_new_request_token m id fresh now) id later ≡ some fresh)
unfolding set_new_request_token get set
get-after m id fresh now later =
    let i : Item Text = record { expires = expiry expiration now; value = fresh } in
    elim (Bool-cases (is_expired later i)) [
      | inl p ↦ inl (ground (arith, lookup-insert id id i m))
      | inr p ↦ inr (ground (arith, lookup-insert id id i m))
    ]

checked :
    (m : Memory Text) (token fresh : Text) (now : ℕ) (p : Principal)
    → (check_token m token fresh now p).1 ≡ some fresh
    → (id : Text) × (p ≡ user id)
      × ((check_token m token fresh now p).0 ≡ set_new_request_token m id fresh now)
unfolding check_token
checked m token fresh now not_read e = absurd (cc e)
checked m token fresh now not_authenticated e = absurd (cc e)
checked m token fresh now no_user e = absurd (cc e)
checked m token fresh now (user id) e = (id, refl, ground arith)

-- An accepted request is of a user, whose token it replaces.
accepted :
    (m : Memory Text) (token : Text) (v : Option Values) (fresh : Text) (now : ℕ)
    → (token_middleware m token v fresh now).1 ≡ some fresh
    → (id : Text) × (get_principal v ≡ user id)
      × ((token_middleware m token v fresh now).0 ≡ set_new_request_token m id fresh now)
unfolding token_middleware
accepted m [] v fresh now e = absurd (cc e)
accepted m (c ∷ cs) v fresh now e = checked m (c ∷ cs) fresh now (get_principal v) e

refused :
    (m : Memory Text) (token : Text) (v : Option Values) (fresh : Text) (now : ℕ) (id : Text)
    → get_principal v ≡ user id
    → get m id now ≢ some token
    → (token_middleware m token v fresh now).1 ≡ none
unfolding token_middleware get_token
refused m [] v fresh now id p ne = refl
refused m (c ∷ cs) v fresh now id p ne = ground arith

stored-get :
    (m : Memory Text) (id fresh : Text) (now later : ℕ)
    → 3600 + now < u32
    → later < 3600 + now
    → get (set_new_request_token m id fresh now) id later ≡ some fresh
unfolding set_new_request_token
stored-get m id fresh now later fits soon =
    let g = get-set m id fresh expiration now later (ground arith) (ground arith) fits in
    ground arith

-- After a request that was accepted, another one with the same token is refused, at any time, if
-- the token that was drawn for the first is a different one.
pub token_middleware-once :
    (m : Memory Text) (token : Text) (v : Option Values) (fresh fresh' : Text) (now later : ℕ)
    → (token_middleware m token v fresh now).1 ≡ some fresh
    → fresh ≢ token
    → (token_middleware (token_middleware m token v fresh now).0 token v fresh' later).1 ≡ none
token_middleware-once m token v fresh fresh' now later e ne =
    let (id, p, st) = accepted m token v fresh now e in
    rw (st) (
      refused (set_new_request_token m id fresh now) token v fresh' later id p (λ g.
        elim (get-after m id fresh now later) [ inl q ↦ ground arith | inr q ↦ ground arith ]))

-- After a request that was accepted, one with the new token is accepted for an hour, whatever it
-- draws, if the new token is not empty and the end of the hour fits in 32 bits.
pub token_middleware-next :
    (m : Memory Text) (token : Text) (v : Option Values) (fresh fresh' : Text) (now later : ℕ)
    → (token_middleware m token v fresh now).1 ≡ some fresh
    → fresh ≢ []
    → 3600 + now < u32
    → later < 3600 + now
    → (token_middleware (token_middleware m token v fresh now).0 fresh v fresh' later).1
      ≡ some fresh'
token_middleware-next m token v fresh fresh' now later e ne fits soon =
    let (id, p, st) = accepted m token v fresh now e in
    rw (st) (
      (token_middleware-accepts (set_new_request_token m id fresh now) fresh v fresh' later id p).1
        (ne, stored-get m id fresh now later fits soon))
