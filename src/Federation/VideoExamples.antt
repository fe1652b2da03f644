-- ===== src/Federation/VideoExamples.antt =====
-- One input for each theorem on the videos of other instances.
use shig.Common.{ap, Text, ℕ, ◌+◌, true, false, [], ◌∷◌, some, ◌≡◌, refl, Text-discrete}
use shig.Streams.{found, not_found, ok}
use shig.Federation.{Url, Urls, Config, Actor, Video, Store}
use shig.Federation.Strings.{codes}
use shig.Federation.Follow.{empty_actor}
use shig.Federation.Properties.{Fields, end, field, boolean, number, text}
use shig.Federation.Videos.{
  create_actor, assign, actor_type_from_string, Outside, empty_video, add_owner_and_channel,
}
use shig.Federation.Videos.Owners.{Assigned, created, add_owner_and_channel-Assigned}

abbrev url : Text → Url
url path = record { scheme = []; host = codes "h"; path = path }

abbrev urls : Urls
urls = record { parse_url = λ t. some (url t); url_text = λ u. u.path }

abbrev ann : Actor
ann = record empty_actor {
  id = 1;
  actor_type = codes "Person";
  actor_iri = codes "ann";
  preferred_username = codes "ann";
}

-- The state counts the writes.
abbrev store : Store ℕ
store = record {
  first_follow = λ f d. not_found;
  create_follow = λ f d. (d + 1, true);
  save_follow = λ f d. (d + 1, true);
  first_actor = λ a d. found ann;
  first_actor_where_iri = λ i d. found ann;
  upsert_actor = λ a d. (d + 1, some a);
  first_instance_where_actor = λ i d. not_found;
  create_instance = λ i d. (d + 1, some i);
  upsert_video = λ v d. (d + 1, some v);
  delete_video_where_iri = λ i d. (d + 1, true);
  first_follow_by_key = λ f g d e. refl;
  first_actor_by_key = λ f g d e. refl;
}

-- A video as PeerTube sends it, without the plugin's properties
abbrev raw : Fields
raw = field (codes "type") (text (codes "Video")) (
    field (codes "name") (text (codes "v")) (
      field (codes "uuid") (text (codes "7")) (
        field (codes "latencyMode") (number 1) (
          field (codes "state") (number 2) (
            field (codes "isLiveBroadcast") (boolean true) (
              field (codes "permanentLive") (boolean false)
                (field (codes "liveSaveReplay") (boolean true) end)))))))

abbrev outside : Outside
outside = record {
  urls = urls;
  fetch = λ a i. some (record ann { actor_iri = i });
  fetch_object = λ a i. some raw;
  parse = λ t. some 7;
  uuid_text = λ u. codes "7";
  to_uint = λ bits. bits;
}

abbrev config : Config
config = record {
  enable = true;
  is_private = false;
  https = true;
  instance_url = url [];
  instance_username = codes "shig";
  register_token = [];
}

abbrev owned : Video
owned = record empty_video { owner = some (record ann { actor_iri = codes "/a/" }) }

owned_lem :
    add_owner_and_channel store outside config ann (url (codes "/a/") ∷ []) empty_video 0
    ≡ (1, ok owned)
unfolding add_owner_and_channel create_actor assign actor_type_from_string Text-discrete
owned_lem = refl

add_owner_and_channel-Assigned_example :
    Assigned empty_video owned (created store outside config ann (url (codes "/a/") ∷ []) 0)
add_owner_and_channel-Assigned_example =
    add_owner_and_channel-Assigned store outside config ann (url (codes "/a/") ∷ []) empty_video
      owned 0 (ap (λ x. x.1) owned_lem)
