-- ===== src/Federation/Properties.antt =====
-- parser/unknown.go: the properties of a video that vocab does not know, as the map that JSON gives.
-- A number is the bits of its float64. uuid.Parse and String, and Go's conversion of a float64 to
-- uint, are parameters.
use shig.Common.{[], Text, Uuid, ℕ, Bool, false, if◌then◌else◌, Option, none, some}
use shig.Streams.{Result, ok, err, other_error, ◌>>=◌}
use shig.Federation.{or_fail}
use shig.Federation.Strings.{codes, same}

mutual
  pub data Value : Type 0 where
    null other_value : Value
    boolean : Bool → Value
    number : ℕ → Value
    text : Text → Value
    object : Fields → Value

  -- map[string]interface{}
  pub data Fields : Type 0 where
    end : Fields
    field : Text → Value → Fields → Fields

pub record ShigGuests : Type 0 where
  pub first_guest : Text
  pub second_guest : Text
  pub third_guest : Text

pub record VideoProperties : Type 0 where
  pub latency_mode : ℕ
  pub uuid : Text
  pub state : ℕ
  pub shig_active : Bool
  pub shig : Option ShigGuests
  pub shig_instance_url : Text
  pub is_live_broadcast : Bool
  pub permanent_live : Bool
  pub live_save_replay : Bool

unfoldable pub get : Fields → Text → Value
get end key = null
get (field k v fs) key = let rest = get fs key in if same k key then v else rest

unfoldable pub exclude_unknown_bool : Fields → Text → Result Bool
unfolding get
exclude_unknown_bool fs key = elim (get fs key) [ boolean b ↦ ok b | _ ↦ err other_error ]

unfoldable pub exclude_unknown_string : Fields → Text → Result Text
unfolding get
exclude_unknown_string fs key = elim (get fs key) [ text t ↦ ok t | _ ↦ err other_error ]

module _ (parse : Text → Option Uuid) (uuid_text : Uuid → Text) (to_uint : ℕ → ℕ) where
  unfoldable pub exclude_unknown_uint : Fields → Text → Result ℕ
  unfolding get
  exclude_unknown_uint fs key = elim (get fs key) [
    | number bits ↦ ok (to_uint bits)
    | _ ↦ err other_error
  ]

  unfoldable pub exclude_unknown_uuid : Fields → Text → Result Uuid
  unfolding get
  exclude_unknown_uuid fs key = elim (get fs key) [
    | text t ↦ or_fail (parse t)
    | _ ↦ err other_error
  ]

  unfoldable pub extract_shig_data : Fields → VideoProperties → Result VideoProperties
  unfolding exclude_unknown_bool exclude_unknown_string
  extract_shig_data props v = do
    active ← exclude_unknown_bool props (codes "shigActive")
    instance_url ← exclude_unknown_string props (codes "shigInstanceUrl")
    first ← exclude_unknown_string props (codes "firstGuest")
    second ← exclude_unknown_string props (codes "secondGuest")
    third ← exclude_unknown_string props (codes "thirdGuest")
    ok (record v {
      shig_active = active;
      shig_instance_url = instance_url;
      shig = some (record { first_guest = first; second_guest = second; third_guest = third });
    })

  unfoldable pub extract_video_unknown_properties : Fields → Result VideoProperties
  unfolding exclude_unknown_bool exclude_unknown_string exclude_unknown_uint exclude_unknown_uuid
      extract_shig_data get
  extract_video_unknown_properties fs = do
    latency_mode ← exclude_unknown_uint fs (codes "latencyMode")
    uuid ← exclude_unknown_uuid fs (codes "uuid")
    state ← exclude_unknown_uint fs (codes "state")
    is_live_broadcast ← exclude_unknown_bool fs (codes "isLiveBroadcast")
    permanent_live ← exclude_unknown_bool fs (codes "permanentLive")
    live_save_replay ← exclude_unknown_bool fs (codes "liveSaveReplay")
    let v : VideoProperties = record {
      latency_mode = latency_mode;
      uuid = uuid_text uuid;
      state = state;
      shig_active = false;
      shig = none;
      shig_instance_url = [];
      is_live_broadcast = is_live_broadcast;
      permanent_live = permanent_live;
      live_save_replay = live_save_replay;
    }
    elim (get fs (codes "peertubeShig")) [ object props ↦ extract_shig_data props v | _ ↦ ok v ]
