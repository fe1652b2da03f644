-- ===== src/Rtp/LiveStreamSender/Forwarding.antt =====
-- What is sent on of a track, and the payload types of its packets.
use shig.Common.{
  ◌∙◌, Text, ℕ, false, List, [], ◌∷◌, ◌++◌, map, Option, none, some, All, ◌≡◌, ◌≢◌, refl, ap,
}
use shig.Rtp.LiveStreamSender.{
  UdpConnection, Written, done, refused, failed, returned, Forwarded, write_packets, write_track,
  and_sent, after_write,
}

module _ (repack : ℕ → Text → Option Text) (write : Text → Written) where
  -- A packet that pion can repack, and whose write does not fail for good
  pub record Passes (payload_type : ℕ) (b p : Text) : Type 0 where
    pub is_packet : repack payload_type b ≡ some p
    pub is_written : write p ≢ failed

  abbrev pub AllPass : ℕ → List (Text × Text) → Type 0
  AllPass payload_type xs = All (λ x. Passes payload_type x.0 x.1) xs

  abbrev pub reads : List (Text × Text) → List (Option Text)
  reads xs = map (λ x. some x.0) xs

  abbrev pub packets : List (Text × Text) → List Text
  packets xs = map (λ x. x.1) xs

  after_passes : (w : Written) (r : Forwarded) → w ≢ failed → after_write repack write w r ≡ r
  unfolding after_write
  after_passes done r ne = refl
  after_passes refused r ne = refl
  after_passes failed r ne = absurd (ne refl)

  forward-cons :
      (payload_type : ℕ) (b p : Text) (rs : List (Option Text))
      → Passes payload_type b p
      → write_packets repack write payload_type (some b ∷ rs)
        ≡ and_sent p (write_packets repack write payload_type rs)
  unfolding write_packets
  forward-cons payload_type b p rs h =
      rw (h.is_packet, write_packets) (ap (and_sent p) (after_passes (write p) _ h.is_written))

  forwards :
      (payload_type : ℕ) (xs : List (Text × Text)) (rs : List (Option Text))
      → AllPass payload_type xs
      → write_packets repack write payload_type (reads xs ++ (none ∷ rs))
        ≡ record { sent = packets xs; ended = returned }
  unfolding write_packets
  forwards payload_type [] rs h = refl
  forwards payload_type ((b, p) ∷ xs) rs h =
      forward-cons payload_type b p (reads xs ++ (none ∷ rs)) h.0
      ∙ ap (and_sent p) (forwards payload_type xs rs h.1)

  -- Where no write fails for good, the packets that were read up to the track's first error are all
  -- sent on, in order and with the connection's payload type, and then writeTrack returns nil.
  pub write_track-forwards :
      (udp : UdpConnection) (xs : List (Text × Text)) (rs : List (Option Text))
      → AllPass udp.payload_type xs
      → write_track repack write false udp (reads xs ++ (none ∷ rs))
        ≡ record { sent = packets xs; ended = returned }
  unfolding write_track
  write_track-forwards udp xs rs h = forwards udp.payload_type xs rs h
