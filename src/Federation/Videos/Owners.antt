-- ===== src/Federation/Videos/Owners.antt =====
-- Who owns a video, and which channel it is in.
use shig.Common.{
  subst, Option-cases, List, [], ◌∷◌, ◌++◌, Option, none, some, ◌≡◌, ◌∙◌, sym, ap, arith, inl, inr,
}
use mathlib.Core.List.{append_assoc, append-nil}
use shig.Streams.{Result, ok, err}
use shig.Federation.{Url, Config, Actor, Video, Store}
use shig.Federation.Cases.{Result-cases}
use shig.Federation.Videos.{
  assign_as, Outside, ActorType, person, group, organization, application, service, bot,
  actor_type_from_string, assign, attempt, create_actor, add_owner_and_channel,
}

abbrev pub to_list : {A : Type 0} → Option A → List A
to_list none = []
to_list (some a) = a ∷ []

-- An actor as the only entry of a list, if it is a person, or a group
abbrev pub if_person : ActorType → Actor → List Actor
if_person person a = a ∷ []
if_person _ a = []

abbrev pub if_group : ActorType → Actor → List Actor
if_group group a = a ∷ []
if_group _ a = []

abbrev pub persons : List Actor → List Actor
persons [] = []
persons (a ∷ as') = if_person (actor_type_from_string a.actor_type) a ++ persons as'

abbrev pub groups : List Actor → List Actor
groups [] = []
groups (a ∷ as') = if_group (actor_type_from_string a.actor_type) a ++ groups as'

pub record Assigned (v w : Video) (as' : List Actor) : Type 0 where
  pub owners : to_list v.owner ++ persons as' ≡ to_list w.owner
  pub channels : to_list v.channel ++ groups as' ≡ to_list w.channel

-- The same for one actor of a type
abbrev AssignedAs : ActorType → Actor → Video → Video → Type 0
AssignedAs t a v w =
    (to_list v.owner ++ if_person t a ≡ to_list w.owner)
    × (to_list v.channel ++ if_group t a ≡ to_list w.channel)

other_type :
    (v w : Video)
    → Result.ok v ≡ ok w
    → (to_list v.owner ++ [] ≡ to_list w.owner) × (to_list v.channel ++ [] ≡ to_list w.channel)
other_type v w e =
    let p : v ≡ w = cc e in
    (
      append-nil (to_list v.owner) ∙ ap (λ x. to_list x.owner) p,
      append-nil (to_list v.channel) ∙ ap (λ x. to_list x.channel) p,
    )

assign_as-Assigned :
    (t : ActorType) (a : Actor) (v w : Video) → assign_as t a v ≡ ok w → AssignedAs t a v w
unfolding assign_as
assign_as-Assigned person a v w e = elim (Option-cases v.owner) [
  | inl n ↦ (ground arith, append-nil (to_list v.channel) ∙ ground arith)
  | inr (o, p) ↦ absurd (ground arith)
]
assign_as-Assigned group a v w e = elim (Option-cases v.channel) [
  | inl n ↦ (append-nil (to_list v.owner) ∙ ground arith, ground arith)
  | inr (o, p) ↦ elim (Option-cases v.owner) [
    | inl n ↦ absurd (ground arith)
    | inr (q, r) ↦ absurd (ground arith)
  ]
]
assign_as-Assigned organization a v w e = other_type v w e
assign_as-Assigned application a v w e = other_type v w e
assign_as-Assigned service a v w e = other_type v w e
assign_as-Assigned bot a v w e = other_type v w e

-- One actor and then the others
then_others :
    {A : Type 0} (x y z one rest : List A) → x ++ one ≡ y → y ++ rest ≡ z → x ++ (one ++ rest) ≡ z
then_others x y z one rest p q = sym (append_assoc x one rest) ∙ ap (λ t. t ++ rest) p ∙ q

module _ {D : Type 0} (store : Store D) (outside : Outside) (config : Config) where
  -- The actors that are created for the IRIs, one after the other; a failure is passed over.
  pub created : Actor → List Url → D → List Actor
  unfolding attempt create_actor
  created inst [] d = []
  created inst (u ∷ us) d =
      let x = attempt (create_actor store outside config (outside.urls.url_text u) inst) d in
      let rest = created inst us x.0 in
      elim x.1 [ ok (some a) ↦ a ∷ rest | ok none ↦ rest | err e ↦ [] ]

  -- If addOwnerAndChannel succeeds, then the owner of the video before it, if any, and after it the
  -- persons among the actors that it created are together the owner that it leaves, or none; so too
  -- the channel and the groups.
  pub add_owner_and_channel-Assigned :
      (inst : Actor) (us : List Url) (v w : Video) (d : D)
      → (add_owner_and_channel store outside config inst us v d).1 ≡ ok w
      → Assigned v w (created inst us d)
  unfolding add_owner_and_channel created assign
  add_owner_and_channel-Assigned inst [] v w d e =
      let (p, q) = other_type v w e in record { owners = p; channels = q }
  add_owner_and_channel-Assigned inst (u ∷ us) v w d e =
      let x = attempt (create_actor store outside config (outside.urls.url_text u) inst) d in
      elim (Result-cases x.1) [
        | inr (f, p) ↦ absurd (ground arith)
        | inl (none, p) ↦
            let q : created inst (u ∷ us) d ≡ created inst us x.0 = ground arith in
            subst (Assigned v w) (sym q)
              (add_owner_and_channel-Assigned inst us v w x.0 (ground arith))
        | inl (some a, p) ↦ elim (Result-cases (assign (some a) v)) [
          | inr (f, q) ↦ absurd (ground arith)
          | inl (v', q) ↦
              let r : created inst (u ∷ us) d ≡ a ∷ created inst us x.0 = ground arith in
              let ih = add_owner_and_channel-Assigned inst us v' w x.0 (ground arith) in
              let one = assign_as-Assigned (actor_type_from_string a.actor_type) a v v' q in
              subst (Assigned v w) (sym r) (record {
                owners = then_others _ _ _ _ _ one.0 ih.owners;
                channels = then_others _ _ _ _ _ one.1 ih.channels;
              })
        ]
      ]
