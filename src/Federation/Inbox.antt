-- ===== src/Federation/Inbox.antt =====
-- handler/inbox.go, sharedInbox.go, object.go and actors.go: the requests of other instances. The
-- queue holds what AddToQueue gave to the workers of internal/activitypub/inbox; AddToQueue returns
-- when a worker takes the job. How the signed response to an actor's request ends is a parameter.
pub mod Queued
use shig.Common.{Text, Bool, true, false, if◌then◌else◌, List, [], ◌∷◌, ◌++◌, Option, none, some}
use shig.Streams.{Query, found}
use shig.Media.Response.{
  Response, new_response, set_header, with_type, activity_json, write_header, write, bytes,
  http_error, no_federation_support, account_name_not_found,
}
use shig.Media.Request.{Body, no_body, unreadable, content, Handled, handled}
use shig.Federation.{Config, Actor, Store}
use shig.Federation.Follow.{empty_actor}

-- The account name is a variable of the route.
pub record InboxCall : Type 0 where
  pub is_post : Bool
  pub account_name : Option Text
  pub body : Body

pub record InboxRequest : Type 0 where
  pub for_local_account : Text
  pub body : Text

abbrev pub Jobs : Type 0
Jobs = List InboxRequest

-- io.ReadAll of the body, AddToQueue and the status. Where the body cannot be read no status is set.
unfoldable pub queue_body : Text → Body → Jobs → Handled Jobs
unfolding handled
queue_body account no_body q =
    handled (q ++ (record { for_local_account = account; body = [] } ∷ []))
      (write_header 202 new_response)
queue_body account unreadable q = handled q new_response
queue_body account (content t) q =
    handled (q ++ (record { for_local_account = account; body = t } ∷ []))
      (write_header 202 new_response)

module _ {D : Type 0} (store : Store D) (config : Config) where
  -- ActorRepository.GetActorForUserName
  unfoldable pub get_actor_for_user_name : Text → D → Query Actor
  get_actor_for_user_name name d =
      store.first_actor (record empty_actor { preferred_username = name }) d

  unfoldable pub accept_inbox_request : D → InboxCall → Jobs → Handled Jobs
  unfolding handled queue_body
  accept_inbox_request d r q =
      if config.enable
      then (elim r.account_name [
        | none ↦ handled q (write_header 400 new_response)
        | some name ↦ elim (get_actor_for_user_name name d) [
          | found a ↦ queue_body name r.body q
          | _ ↦ handled q (write_header 404 new_response)
        ]
      ])
      else handled q (write_header 405 new_response)

  -- GetInboxHandler
  unfoldable pub inbox : D → InboxCall → Jobs → Handled Jobs
  unfolding handled accept_inbox_request
  inbox d r q =
      if r.is_post then accept_inbox_request d r q else handled q (write_header 405 new_response)

  -- How WriteStreamResponse ends
  pub data Reply : Type 0 where
    not_serialised not_signed not_written : Reply
    reply : Text → Reply

  -- WriteStreamResponse with WriteResponse, and the handler's status where it gives an error
  unfoldable pub write_reply : Reply → Response → Response
  write_reply not_serialised w = write_header 500 w
  write_reply not_signed w =
      write_header 500 (write_header 500 (set_header (with_type activity_json) w))
  write_reply not_written w =
      write_header 500 (write_header 500 (set_header (with_type activity_json) w))
  write_reply (reply t) w = write (bytes t) (set_header (with_type activity_json) w)

  -- GetActorHandler
  unfoldable pub actor : (Actor → Reply) → D → Option Text → Response
  unfolding write_reply get_actor_for_user_name
  actor replied d account_name =
      if config.enable
      then (elim account_name [
        | none ↦ http_error account_name_not_found 400 new_response
        | some name ↦ elim (get_actor_for_user_name name d) [
          | found a ↦ write_reply (replied a) new_response
          | _ ↦ write_header 404 new_response
        ]
      ])
      else http_error no_federation_support 405 new_response

-- GetSharedInboxHandler, with acceptSharedInboxRequest
unfoldable pub shared_inbox : Config → InboxCall → Jobs → Handled Jobs
unfolding handled queue_body
shared_inbox config r q =
    if r.is_post
    then if config.enable
      then queue_body config.instance_username r.body q
      else handled q (write_header 405 new_response)
    else handled q (write_header 405 new_response)

-- GetObjectHandler
unfoldable pub object : Config → Response
object config =
    if config.enable
    then if config.is_private then write_header 404 new_response else write_header 404 new_response
    else write_header 405 new_response
