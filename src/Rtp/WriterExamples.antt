-- ===== src/Rtp/WriterExamples.antt =====
-- One input for the theorem on the copying loop.
use shig.Common.{true, false, List, [], ◌∷◌, ◌≡◌, ◌≢◌, ◌⊎◌, refl, not}
use shig.Rtp.MediaWriter.{
  Round, packet, eof, written, closed_pipe, write_rtp, new_media_writer, is_running, copying,
}
use shig.Rtp.MediaWriter.Copying.{write_rtp_lem, packets, ended}

-- Two packets, the first for no subscriber, and the end of the track.
abbrev rounds : List Round
rounds =
    record { session_done = false; read = packet (1 ∷ []); write = closed_pipe }
    ∷ record { session_done = false; read = packet (2 ∷ []); write = written }
    ∷ record { session_done = false; read = eof; write = written }
    ∷ []

write_rtp_lem_example :
    ((write_rtp rounds (new_media_writer false)).0 ≡ packets rounds)
    × (is_running (write_rtp rounds (new_media_writer false)).1 ≡ not (ended rounds))
    × (((ended rounds ≡ false) × ((write_rtp rounds (new_media_writer false)).2 ≡ copying))
        ⊎ ((ended rounds ≡ true) × ((write_rtp rounds (new_media_writer false)).2 ≢ copying)))
unfolding is_running new_media_writer
write_rtp_lem_example = write_rtp_lem rounds (new_media_writer false) refl
