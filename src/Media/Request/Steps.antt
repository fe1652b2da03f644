-- ===== src/Media/Request/Steps.antt =====
-- How a handler that is a chain of early returns is taken apart.
use shig.Common.{◌≢◌, arith, Text, ◌⊎◌, inl, inr, Option, none, some, ◌≡◌, refl, subst}
use shig.Auth.RequestToken.{Principal, not_read, not_authenticated, no_user, user}
use shig.Streams.{LiveStream}
use shig.Media.Response.{http_error, set_header, write_header, write, Response, Message}
use shig.Media.Request.{
  space_request_id_not_found, stream_request_id_not_found, not_found_stream, other_resource,
  nil_resource, session_error, Handled, Step, stop, go, ◌>>=◌, finish, or_stop, or_resource, Got,
  got, missing, ResourceError, resource_error, Payload, payload, refused,
}

-- What holds of every early return of a step, and of the rest at every value that the step gives,
-- holds of the whole.
pub finish->>= :
    {E A : Type 0} (P : E → Type 0) (m : Step E A) (f : A → Step E E)
    → ((e : E) → m ≡ stop e → P e)
    → ((a : A) → m ≡ go a → P (finish (f a)))
    → P (finish (m >>= f))
unfolding finish
finish->>= P (stop e) f h k = h e refl
finish->>= P (go a) f h k = k a refl

module _ {S : Type 0} where
  pub or_stop-go :
      {A : Type 0} (o : Option A) (h : Handled S) (a : A) → or_stop o h ≡ go a → o ≡ some a
  unfolding or_stop
  or_stop-go none h a e = absurd (cc e)
  or_stop-go (some b) h a e = cc e

  pub or_stop-stop : {A : Type 0} (o : Option A) (h e : Handled S) → or_stop o h ≡ stop e → h ≡ e
  unfolding or_stop
  or_stop-stop none h e p = cc p
  or_stop-stop (some b) h e p = absurd (cc p)

  pub or_resource-go :
      (s : S) (w : Response) (g : Got) (x : LiveStream) → or_resource s w g ≡ go x → g ≡ got x
  unfolding or_resource
  or_resource-go s w (got y) x e = cc e
  or_resource-go s w (missing y) x e = absurd (cc e)

  pub or_resource-stop :
      (s : S) (w : Response) (g : Got) (h : Handled S)
      → or_resource s w g ≡ stop h
      → (e : ResourceError) × (resource_error s w e ≡ h)
  unfolding or_resource
  or_resource-stop s w (got y) h e = absurd (cc e)
  or_resource-stop s w (missing y) h e = (y, cc e)

  -- An early return by or_stop has what its answer has.
  pub or_stop-all :
      (P : Handled S → Type 0) {A : Type 0} (o : Option A) (h e : Handled S)
      → or_stop o h ≡ stop e
      → P h
      → P e
  or_stop-all P o h e p x = subst P (or_stop-stop o h e p) x

  pub or_resource-all :
      (P : Handled S → Type 0) (s : S) (w : Response) (g : Got) (h : Handled S)
      → or_resource s w g ≡ stop h
      → ((e : ResourceError) → P (resource_error s w e))
      → P h
  or_resource-all P s w g h p k = let (e, q) = or_resource-stop s w g h p in subst P q (k e)

pub Got-cases :
    (g : Got) → ((s : LiveStream) × (g ≡ got s)) ⊎ ((e : ResourceError) × (g ≡ missing e))
Got-cases (got s) = inl (s, refl)
Got-cases (missing e) = inr (e, refl)

pub Payload-cases :
    (p : Payload) → ((t : Text) × (p ≡ payload t)) ⊎ ((m : Message) × (p ≡ refused m))
Payload-cases (payload t) = inl (t, refl)
Payload-cases (refused m) = inr (m, refl)

pub session_error-status :
    (p : Principal) (w : Response) → w.status ≢ some 201 → (session_error p w).status ≢ some 201
unfolding session_error http_error write_header set_header write
session_error-status not_read w ne h = ground arith
session_error-status not_authenticated w ne h = ground arith
session_error-status no_user w ne h = ground arith
session_error-status (user t) w ne h = ground arith

-- An error of the stream's lookup is no success, and leaves the state.
pub resource_error_lem :
    {S : Type 0} (s : S) (w : Response) (e : ResourceError)
    → w.status ≡ none
    → ((resource_error s w e).response.status ≢ some 200)
      × ((resource_error s w e).response.status ≢ some 201)
      × ((resource_error s w e).state ≡ s)
unfolding resource_error http_error write_header set_header write
resource_error_lem s w space_request_id_not_found e = ground arith
resource_error_lem s w stream_request_id_not_found e = ground arith
resource_error_lem s w not_found_stream e = ground arith
resource_error_lem s w other_resource e = ground arith
resource_error_lem s w nil_resource e = ground arith
