-- ===== src/Rtp/MediaWriter.antt =====
-- internal/rtp/media_writer.go: the loop that copies the packets of a remote track to a local one.
-- A round is what the loop meets: whether the session is done, what Read gave, and what Write gave.
pub mod Copying
use shig.Common.{true, [], false, not, ◌||◌, ◌∷◌, Bool, List, Text, if◌then◌else◌}

pub data Read : Type 0 where
  packet : Text → Read
  eof read_failed : Read

pub data Write : Type 0 where
  written closed_pipe write_failed : Write

pub record Round : Type 0 where
  pub session_done : Bool
  pub read : Read
  pub write : Write

pub record MediaWriter : Type 0 where
  pub session_done : Bool
  pub quit : Bool

unfoldable pub new_media_writer : Bool → MediaWriter
new_media_writer session_done = record { session_done = session_done; quit = false }

-- close does nothing once the session is done.
unfoldable pub close : MediaWriter → MediaWriter
close w = if w.session_done || w.quit then w else record w { quit = true }

unfoldable pub is_running : MediaWriter → Bool
is_running w = not (w.session_done || w.quit)

-- How writeRtp returns; `copying` is a loop that still waits for the next packet.
pub data Outcome : Type 0 where
  copying returned read_error write_error : Outcome

-- The packets that the local track's Write was called with, the writer and the outcome.
abbrev pub Copied : Type 0
Copied = List Text × MediaWriter × Outcome

with_packet : Text → Copied → Copied
with_packet p (ps, w, o) = (p ∷ ps, w, o)

-- One round: `rest` is what the loop does from the next round on.
copy : Bool → Read → Write → Copied → MediaWriter → Copied
unfolding close with_packet
copy true r wr rest w = ([], w, returned)
copy false eof wr rest w = ([], close w, returned)
copy false read_failed wr rest w = ([], close w, read_error)
copy false (packet p) write_failed rest w = (p ∷ [], close w, write_error)
copy false (packet p) written rest w = with_packet p rest
copy false (packet p) closed_pipe rest w = with_packet p rest

unfoldable pub write_rtp : List Round → MediaWriter → Copied
unfolding copy is_running
write_rtp [] w = ([], w, copying)
write_rtp (r ∷ rs) w =
    let w' : MediaWriter = record w { session_done = w.session_done || r.session_done } in
    copy (not (is_running w')) r.read r.write (write_rtp rs w') w'
