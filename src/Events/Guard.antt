-- ===== src/Events/Guard.antt =====
-- Who may modify an event: `assertCanModify` of src/events/events.service.ts.
use eventify_backend_course.Common.{◌≡◌, ◌⊎◌, inl, inr, refl, true, arith, Bool-cases, ◌==◌}
use eventify_backend_course.Errors.{ok, err}
use eventify_backend_course.Store.{Event, Actor, Role, admin, attendee, organizer, role_eq}
use eventify_backend_course.Events.Service.{World, may_not_modify, assert_can_modify}

abbrev pub MayModify : Event → Actor → Type 0
MayModify e actor = (actor.role ≡ admin) ⊎ (e.organizer_id ≡ actor.sub)

role-admin : (r : Role) → role_eq r admin ≡ true → r ≡ admin
role-admin attendee e = cc
role-admin organizer e = cc
role-admin admin e = refl

pub assert_can_modify-cases :
    {C : Type 0} (e : Event) (actor : Actor) (w : World C)
    → ((assert_can_modify e actor w ≡ (ok tt, w)) × MayModify e actor)
      ⊎ ((assert_can_modify e actor w ≡ (err may_not_modify, w)) × (¬ MayModify e actor))
unfolding assert_can_modify
assert_can_modify-cases e actor w = elim (Bool-cases (role_eq actor.role admin)) [
  | inl grants ↦ inl (ground arith, inl (role-admin actor.role grants))
  | inr lacks ↦ elim (Bool-cases (e.organizer_id == actor.sub)) [
    | inl own ↦ inl (ground arith, inr (ground arith))
    | inr other ↦
        inr (
          ground arith,
          λ may. elim may [ inl is_admin ↦ ground arith | inr is_own ↦ ground arith ],
        )
  ]
]
