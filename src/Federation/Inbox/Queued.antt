-- ===== src/Federation/Inbox/Queued.antt =====
-- Which requests reach the inbox's workers.
use shig.Common.{inl, inr, Bool-cases, ◌∷◌, ◌++◌, Text, [], ◌≡◌, ◌≢◌, refl, arith, some}
use shig.Federation.{Actor, Config, Store}
use shig.Media.Response.{new_response, write_header}
use shig.Media.Request.{Body, no_body, unreadable, content, Handled}
use shig.Federation.Follow.{empty_actor}
use shig.Federation.Inbox.{
  InboxCall, Jobs, queue_body, inbox, shared_inbox, get_actor_for_user_name,
}
use shig.Federation.Cases.{Query-cases}

-- What the workers are given for a body
abbrev pub text_of : Body → Text
text_of no_body = []
text_of unreadable = []
text_of (content t) = t

-- A handler answers 202 exactly with one more job, and any other answer leaves the jobs.
pub record IsQueued (account : Text) (r : InboxCall) (q : Jobs) (h : Handled Jobs) : Type 0 where
  pub one_more :
      h.response.status ≡ some 202
      → h.state ≡ q ++ (record { for_local_account = account; body = text_of r.body } ∷ [])
  pub unchanged : h.response.status ≢ some 202 → h.state ≡ q

queue_body-IsQueued :
    (account : Text) (r : InboxCall) (q : Jobs) → IsQueued account r q (queue_body account r.body q)
unfolding queue_body write_header new_response
queue_body-IsQueued account r q =
    elim r.body as (λ b. (b ≡ r.body) → IsQueued account r q (queue_body account b q)) [
      | no_body ↦ λ e. record { one_more = λ h. ground arith; unchanged = λ h. absurd (h refl) }
      | unreadable ↦ λ e. record { one_more = λ h. absurd (cc h); unchanged = λ h. refl }
      | content t ↦ λ e. record { one_more = λ h. ground arith; unchanged = λ h. absurd (h refl) }
    ]
      refl

-- An answer of another status that leaves the jobs
abbrev Refuses : Jobs → Handled Jobs → Type 0
Refuses q h = (h.response.status ≢ some 202) × (h.state ≡ q)

refused-IsQueued :
    (account : Text) (r : InboxCall) (q : Jobs) (h : Handled Jobs)
    → Refuses q h
    → IsQueued account r q h
refused-IsQueued account r q h (ne, e) = record {
  one_more = λ y. absurd (ne y);
  unchanged = λ _. e;
}

pub shared_inbox-IsQueued :
    (config : Config) (r : InboxCall) (q : Jobs)
    → IsQueued config.instance_username r q (shared_inbox config r q)
unfolding shared_inbox write_header new_response
shared_inbox-IsQueued config r q =
    let done = queue_body-IsQueued config.instance_username r q in
    elim (Bool-cases r.is_post) [
      | inr n ↦ refused-IsQueued config.instance_username r q _ (ground arith)
      | inl y ↦ elim (Bool-cases config.enable) [
        | inr n ↦ refused-IsQueued config.instance_username r q _ (ground arith)
        | inl z ↦ simp (y, z) done
      ]
    ]

queue_body-any_name :
    (a b : Text) (body : Body) (q : Jobs)
    → (queue_body a body q).response ≡ (queue_body b body q).response
unfolding queue_body
queue_body-any_name a b no_body q = refl
queue_body-any_name a b unreadable q = refl
queue_body-any_name a b (content t) q = refl

abbrev named : Text → Actor
named name = record empty_actor { preferred_username = name }

module _ {D : Type 0} (store : Store D) (config : Config) (d : D) (r : InboxCall) (q : Jobs) where
  pub inbox-IsQueued :
      (name : Text) → r.account_name ≡ some name → IsQueued name r q (inbox store config d r q)
  unfolding inbox write_header new_response
  inbox-IsQueued name e = elim (Bool-cases r.is_post) [
    | inr n ↦ refused-IsQueued name r q _ (ground arith)
    | inl y ↦ elim (Bool-cases config.enable) [
      | inr n ↦ refused-IsQueued name r q _ (ground arith)
      | inl z ↦ elim (Query-cases (get_actor_for_user_name store config name d)) [
        | inr n ↦ refused-IsQueued name r q _ (ground arith)
        | inl (a, p) ↦ simp (y, z, e, p) (queue_body-IsQueued name r q)
      ]
    ]
  ]

  -- The answer to a request for the inbox of a named account does not depend on the name.
  pub inbox-any_name :
      (a b : Text)
      → (inbox store config d (record r { account_name = some a }) q).response
        ≡ (inbox store config d (record r { account_name = some b }) q).response
  unfolding inbox get_actor_for_user_name
  inbox-any_name a b =
      rw (store.first_actor_by_key (named a) (named b) d refl)
        (ground (arith, queue_body-any_name a b r.body q))
