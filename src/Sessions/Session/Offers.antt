-- ===== src/Sessions/Session/Offers.antt =====
-- Numbered offers: which answers count.
use shig.Common.{
  zero, ◌==◌, suc, ℕ, ◌+◌, ◌<◌, ◌%◌, ◌^◌, ◌≡◌, true, Option, none, some, arith, Text, if◌then◌else◌,
  ◌++◌, [], ◌∷◌,
}
use shig.Sessions.Session.{Session, Slot, on_negotiation_needed, on_answer}

module _ {C : Type 0} where
  -- `k` negotiations in a row, in a session that has its messenger.
  after_negotiation : Session C → Option (Session C × ℕ) → Session C
  after_negotiation s none = s
  after_negotiation s (some (s', n)) = s'

  unfoldable pub negotiate : ℕ → Session C → Session C
  unfolding after_negotiation
  negotiate zero s = s
  negotiate (suc k) s = let s' = negotiate k s in after_negotiation s' (on_negotiation_needed s')

  negotiate-number :
      (k : ℕ) (s : Session C)
      → s.signal.has_messenger ≡ true
      → s.signal.offer_number < 2 ^ 32
      → ((negotiate k s).signal.offer_number ≡ (s.signal.offer_number + k) % 2 ^ 32)
        × ((negotiate k s).signal.has_messenger ≡ true)
  unfolding negotiate on_negotiation_needed
  negotiate-number zero s m h = (omega arith, m)
  negotiate-number (suc k) s m h = let ih = negotiate-number k s m h in ground arith

  -- Negotiations leave the endpoints, the offerer and what was applied.
  negotiate-keeps :
      (k : ℕ) (s : Session C)
      → ((negotiate k s).signal.has_offerer ≡ s.signal.has_offerer)
        × ((negotiate k s).egress ≡ s.egress)
        × ((negotiate k s).applied ≡ s.applied)
  unfolding negotiate on_negotiation_needed
  negotiate-keeps zero s = ground arith
  negotiate-keeps (suc k) s = let ih = negotiate-keeps k s in ground arith

  -- In a session with its messenger, an offerer, an egress endpoint and an offer number that fits
  -- in 32 bits, an answer to the current offer reaches the connection after fewer than 2^32 newer
  -- offers exactly if there are none; otherwise it changes nothing.
  pub stale_answer :
      (k : ℕ) (sdp : Text) (s : Session C) (slot : Slot C)
      → s.signal.has_messenger ≡ true
      → s.signal.has_offerer ≡ true
      → s.egress ≡ some slot
      → s.signal.offer_number < 2 ^ 32
      → k < 2 ^ 32
      → ((on_answer s.signal.offer_number sdp (negotiate k s)).applied
          ≡ (if k == 0 then s.applied ++ (sdp ∷ []) else s.applied))
        × (0 < k → on_answer s.signal.offer_number sdp (negotiate k s) ≡ negotiate k s)
  unfolding on_answer
  stale_answer k sdp s slot m o e h small =
      let n = negotiate-number k s m h in
      let kept = negotiate-keeps k s in (ground arith, λ pos. ground arith)

  -- In a session whose signal has an offerer and which has an egress endpoint, an answer with the
  -- current number reaches the connection.
  pub on_answer-applies :
      (sdp : Text) (s : Session C) (slot : Slot C)
      → s.signal.has_offerer ≡ true
      → s.egress ≡ some slot
      → (on_answer s.signal.offer_number sdp s).applied ≡ s.applied ++ (sdp ∷ [])
  unfolding on_answer
  on_answer-applies sdp s slot o e = ground arith
