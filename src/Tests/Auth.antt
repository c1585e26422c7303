-- ===== src/Tests/Auth.antt =====
-- Logins, rotations and replays on small tables in memory.
use eventify_backend_course.Common.{
  ℕ, suc, ◌≡◌, refl, none, some, List, [], ◌∷◌, false, arith, find, length, true,
}
use eventify_backend_course.Errors.{ok, err}
use eventify_backend_course.Store.{User, Store, attendee}
use eventify_backend_course.Memory.{memory}
use eventify_backend_course.Auth.Table.{new_token, replaced, is_token, is_in}
use eventify_backend_course.Auth.Memory.{token_memory}
use eventify_backend_course.Auth.Service.{
  Draw, generic_auth_error, generic_refresh_error, hash_token, generate_refresh_token, issue, login,
  descendants, revoke_all, revoke_family, replace_token, reuse, rotate_live, rotate_stored,
  rotate_refresh,
}
use eventify_backend_course.Auth.Family.{IsChained, Descends, descendants-Finds}
use eventify_backend_course.Auth.Rotation.{Rotates, rotate_refresh-Rotates, fresh}
use eventify_backend_course.Auth.Reuse.{overlapping_rotations, session}
use eventify_backend_course.Auth.Chain.{LogsIn, login-LogsIn, Links, replace_token-IsChained}

auth_calls : Unit {0}
unfolding memory token_memory hash_token generate_refresh_token issue login descendants revoke_all
    revoke_family replace_token reuse rotate_live rotate_stored rotate_refresh
auth_calls = tt

abbrev pub ann : User
ann = record { id = 7; name = "Ann"; email = "ann@eventify.dev"; role = attendee }

abbrev pub nobody_in : Store
nobody_in = record {
  users = ann ∷ [];
  events = [];
  bookings = [];
  refresh_tokens = [];
  waitlist_queue = [];
  email_queue = [];
}

abbrev pub at : ℕ → ℕ → Draw
at now raw = record { now = now; raw = raw; abort = none; lost = false }

abbrev ann_in : Store
ann_in = record nobody_in { refresh_tokens = new_token 0 101 7 604800000 ∷ [] }

-- The first token replaced by the second.
abbrev ann_again : Store
ann_again = record nobody_in {
  refresh_tokens = replaced 5 1 (new_token 0 101 7 604800000) ∷ new_token 1 201 7 604800005 ∷ [];
}

login_then_rotate :
    ((login token_memory (at 0 100) "ann@eventify.dev" nobody_in).1 ≡ ann_in)
    × ((login token_memory (at 0 100) "bob@eventify.dev" nobody_in).0 ≡ err generic_auth_error)
    × ((rotate_refresh memory token_memory (at 5 200) 100 ann_in).1 ≡ ann_again)
    × ((rotate_refresh memory token_memory (at 6 300) 100 ann_again).0 ≡ err generic_refresh_error)
    × (descendants token_memory 3 0 ann_again.refresh_tokens ≡ some (1 ∷ []))
    × ((rotate_refresh memory token_memory (at 604800001 200) 100 ann_in).0
        ≡ err generic_refresh_error)
unfolding auth_calls
login_then_rotate = (refl, refl, refl, refl, refl, refl)

ann_in-IsChained : IsChained ann_in.refresh_tokens
ann_in-IsChained = (refl, (λ j r. cc), tt)

ann_again-IsChained : IsChained ann_again.refresh_tokens
ann_again-IsChained =
    (refl, (λ j r. (new_token 1 201 7 604800005, ground arith)), (refl, (λ j r. cc), tt))

login-LogsIn_example :
    LogsIn token_memory
      (at 0 100)
      "ann@eventify.dev"
      nobody_in
      (login token_memory (at 0 100) "ann@eventify.dev" nobody_in)
login-LogsIn_example = login-LogsIn token_memory (at 0 100) "ann@eventify.dev" nobody_in tt

rotate_refresh-Rotates_example :
    Rotates token_memory
      (at 5 200)
      100
      ann_in
      (rotate_refresh memory token_memory (at 5 200) 100 ann_in)
unfolding token_memory
rotate_refresh-Rotates_example =
    rotate_refresh-Rotates memory token_memory (at 5 200) 100 ann_in ann_in-IsChained refl

descendants-Finds_example :
    (ids : List ℕ) × (descendants token_memory
        (suc (length ann_again.refresh_tokens))
        0
        ann_again.refresh_tokens
      ≡ some ids)
    × ((k : ℕ) → Descends ann_again.refresh_tokens 0 k → is_in k ids ≡ true)
descendants-Finds_example =
    descendants-Finds token_memory ann_again.refresh_tokens ann_again-IsChained 0
      (replaced 5 1 (new_token 0 101 7 604800000)) refl

replace_token-IsChained_example :
    let (r, s') = replace_token token_memory (at 5 200) (new_token 0 101 7 604800000) ann_in in
    IsChained s'.refresh_tokens
    × Links token_memory (at 5 200) (new_token 0 101 7 604800000) ann_in (r, s')
replace_token-IsChained_example =
    replace_token-IsChained token_memory (at 5 200) (new_token 0 101 7 604800000) ann_in
      (new_token 0 101 7 604800000) ann_in-IsChained refl

overlapping_rotations_example :
    let t = new_token 0 101 7 604800000 in
    let (r1, s1) = rotate_stored memory token_memory (at 5 200) (some t) ann_in in
    let (r2, s2) = rotate_stored memory token_memory (at 6 300) (some t) s1 in
    let f = fresh token_memory (at 5 200) t ann_in in
    (r1 ≡ ok (session token_memory (at 5 200) t ann_in))
    × (r2 ≡ ok (session token_memory (at 6 300) t ann_in))
    × (find (is_token f.id) s2.refresh_tokens ≡ some f)
    × (f.revoked_at ≡ none)
    × (¬ Descends s2.refresh_tokens t.id f.id)
unfolding token_memory
overlapping_rotations_example =
    overlapping_rotations memory token_memory (at 5 200) (at 6 300) (new_token 0 101 7 604800000)
      ann_in refl refl (omega arith, refl, refl) (omega arith, refl, refl)
