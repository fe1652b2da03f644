-- ===== src/Sessions/Session/Opening.antt =====
-- The calls that open an endpoint, as a client of the session sees them.
use shig.Common.{◌⊎◌, is_some, ◌↔◌, ◌≢◌, ◌≡◌, refl, Text, true, false, Option, none, some, arith}
use shig.Rtp.Endpoint.{Endpoint}
use shig.Sessions.Session.{
  Session, SignalKind, ok, err, ingress_exists, description_failed, Wait, Description, described,
  wait_result, messenger_ready, open_ingress, open_egress,
}

module _ {C : Type 0} (s : Session C) (kind : SignalKind) where
  -- Opening an ingress endpoint returns a description exactly if the session is open, has no
  -- ingress endpoint, and the engine makes one and describes it in time.
  pub open_ingress-ok :
      (engine : Option (Endpoint C)) (d : Description) (sdp : Text)
      → ((open_ingress s kind engine d).1 ≡ ok sdp)
        ↔ ((s.done ≡ false) × (s.ingress ≡ none) × (is_some engine ≡ true) × (d ≡ described sdp))
  unfolding open_ingress
  open_ingress-ok engine d sdp = (λ h. ground arith, λ h. ground arith)

  -- If an open session has no ingress endpoint, the engine makes one and it is not described in
  -- time, then the call fails and the endpoint stays: the next call fails too, for the endpoint
  -- exists.
  pub open_ingress_retry :
      (e : Endpoint C) (d d' : Description) (engine : Option (Endpoint C))
      → s.done ≡ false
      → s.ingress ≡ none
      → ((sdp : Text) → d ≢ described sdp)
      → ((open_ingress s kind (some e) d).1 ≡ err description_failed)
        × ((open_ingress (open_ingress s kind (some e) d).0 kind engine d').1 ≡ err ingress_exists)
  unfolding open_ingress
  open_ingress_retry e (described sdp) d' engine o i late = absurd (late sdp refl)
  open_ingress_retry e _ d' engine o i late = (ground arith, ground arith)

  -- Whatever fails, opening an endpoint does not replace one that the session has, and does not
  -- touch the endpoint of the other direction.
  pub open-keeps :
      (w : Wait) (engine : Option (Endpoint C)) (d : Description)
      → ((s.ingress ≡ none) ⊎ ((open_ingress s kind engine d).0.ingress ≡ s.ingress))
        × ((s.egress ≡ none) ⊎ ((open_egress s w kind engine d).0.egress ≡ s.egress))
        × ((open_ingress s kind engine d).0.egress ≡ s.egress)
        × ((open_egress s w kind engine d).0.ingress ≡ s.ingress)
  unfolding open_ingress open_egress
  open-keeps w engine d = ground arith

  -- Opening an egress endpoint returns a description exactly if the session is open, has an ingress
  -- and no egress endpoint, the wait for the signal channel ends well, the engine makes the endpoint
  -- and describes it in time.
  pub open_egress-ok :
      (w : Wait) (engine : Option (Endpoint C)) (d : Description) (sdp : Text)
      → ((open_egress s w kind engine d).1 ≡ ok sdp) ↔ (
          (s.done ≡ false)
          × (s.egress ≡ none)
          × (is_some s.ingress ≡ true)
          × (w ≡ messenger_ready)
          × (is_some engine ≡ true)
          × (d ≡ described sdp))
  unfolding open_egress wait_result
  open_egress-ok w engine d sdp = (λ h. ground arith, λ h. ground arith)
