-- ===== src/Rtp/MediaWriter/Copying.antt =====
-- What the copying loop promises.
use shig.Common.{
  inl, ◌≢◌, if◌then◌else◌, ◌⊎◌, ◌≡◌, refl, Bool, true, false, List, [], ◌∷◌, ◌||◌, not, Text, arith,
}
use shig.Rtp.MediaWriter.{
  MediaWriter, Round, Read, packet, eof, read_failed, Write, written, closed_pipe, write_failed,
  write_rtp, copying, is_running,
}

abbrev stops : Read → Bool
stops (packet p) = false
stops _ = true

abbrev fails : Write → Bool
fails write_failed = true
fails _ = false

-- The rounds that the loop goes on after, and the packets that it reads until it ends: a packet
-- whose write fails has been read, too.
unfoldable pub ended : List Round → Bool
ended [] = false
ended (r ∷ rs) = r.session_done || stops r.read || fails r.write || ended rs

packet_of : Read → List Text → List Text
packet_of (packet p) ps = p ∷ ps
packet_of _ ps = []

unfoldable pub packets : List Round → List Text
unfolding packet_of
packets [] = []
packets (r ∷ rs) =
    let rest = packets rs in
    if r.session_done then [] else packet_of r.read (if fails r.write then [] else rest)

abbrev Ends : List Round → MediaWriter → Type 0
Ends rs w =
    ((write_rtp rs w).0 ≡ packets rs)
    × (is_running (write_rtp rs w).1 ≡ not (ended rs))
    × (((ended rs ≡ false) × ((write_rtp rs w).2 ≡ copying))
        ⊎ ((ended rs ≡ true) × ((write_rtp rs w).2 ≢ copying)))

round-Ends :
    (d : Bool) (read : Read) (write : Write) (rs : List Round) (w : MediaWriter)
    → is_running w ≡ true
    → ((w' : MediaWriter) → is_running w' ≡ true → Ends rs w')
    → Ends (record { session_done = d; read = read; write = write } ∷ rs) w
unfolding write_rtp packets ended is_running
round-Ends true read write rs w run ih = ground arith
round-Ends false eof write rs w run ih = ground arith
round-Ends false read_failed write rs w run ih = ground arith
round-Ends false (packet p) write_failed rs w run ih = ground arith
round-Ends false (packet p) written rs w run ih =
    let w' : MediaWriter = record w { session_done = w.session_done || false } in
    let live : is_running w' ≡ true = ground arith in ground (arith, ih w' live)
round-Ends false (packet p) closed_pipe rs w run ih =
    let w' : MediaWriter = record w { session_done = w.session_done || false } in
    let live : is_running w' ≡ true = ground arith in ground (arith, ih w' live)

-- The loop of a running writer returns exactly if a round ends it: the session is done, the remote
-- track has ended or cannot be read, or the local track fails other than for want of subscribers.
-- Until then it writes each packet once and in order, and afterwards the writer does not run.
pub write_rtp_lem :
    (rs : List Round) (w : MediaWriter)
    → is_running w ≡ true
    → ((write_rtp rs w).0 ≡ packets rs)
      × (is_running (write_rtp rs w).1 ≡ not (ended rs))
      × (((ended rs ≡ false) × ((write_rtp rs w).2 ≡ copying))
          ⊎ ((ended rs ≡ true) × ((write_rtp rs w).2 ≢ copying)))
unfolding write_rtp packets ended is_running
write_rtp_lem [] w run = (refl, run, inl (refl, refl))
write_rtp_lem (r ∷ rs) w run = round-Ends r.session_done r.read r.write rs w run (write_rtp_lem rs)
