-- ===== src/Rtp/Track.antt =====
-- internal/rtp/track_sdp_info.go, track_info.go and the type of an endpoint (endpoint.go).
use shig.Common.{Uuid, Text, Bool, false, [], ◌∷◌}

-- `Purpose` is an int in Go of which the code makes these two values only, 1 and 2.
pub data Purpose : Type 0 where
  guest main : Purpose

pub data EndpointType : Type 0 where
  ingress egress : EndpointType

unfoldable pub Purpose-discrete : Discrete Purpose
Purpose-discrete = hlevel

pub EndpointType-discrete : Discrete EndpointType
EndpointType-discrete = hlevel

pub record TrackSdpInfo : Type 0 where
  pub id : Uuid
  pub session_id : Uuid
  pub ingress_mid : Text
  pub ingress_track_id : Text
  pub egress_mid : Text
  pub egress_track_id : Text
  pub purpose : Purpose
  pub mute : Bool
  pub info : Text

-- A `TrackInfo` embeds the description; of the local track the code reads the id.
pub record TrackInfo : Type 0 where
  pub sdp_info : TrackSdpInfo
  pub open sdp_info use *
  pub track : Text

-- "Guest"
abbrev pub guest_label : Text
guest_label = b'G' ∷ b'u' ∷ b'e' ∷ b's' ∷ b't' ∷ []

-- The id is what `uuid.New` returned.
unfoldable pub new_track_sdp_info : Uuid → Uuid → TrackSdpInfo
new_track_sdp_info id session_id = record {
  id = id;
  session_id = session_id;
  ingress_mid = [];
  ingress_track_id = [];
  egress_mid = [];
  egress_track_id = [];
  purpose = guest;
  mute = false;
  info = guest_label;
}
