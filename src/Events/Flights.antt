-- ===== src/Events/Flights.antt =====
-- `coalesce` of src/events/events.service.ts: the map of running fetches. A key is only compared,
-- so it is a number; `started` lists the keys of the fetches that began.
use eventify_backend_course.Common.{
  ℕ, ◌+◌, ◌≡◌, refl, inl, inr, ap, ◌∙◌, Bool, true, false, List, [], ◌∷◌, arith, count_where,
  if◌then◌else◌, ◌==◌, ◌||◌, Bool-cases,
}

pub record Flights : Type 0 where
  pub inflight : List ℕ
  pub started : List ℕ

abbrev pub is_flying : ℕ → List ℕ → Bool
is_flying key [] = false
is_flying key (k ∷ ks) = k == key || is_flying key ks

-- `inflight.delete(key)`
abbrev pub landed : ℕ → List ℕ → List ℕ
landed key [] = []
landed key (k ∷ ks) = if k == key then landed key ks else k ∷ landed key ks

-- A request that finds a running fetch joins it.
unfoldable pub coalesce : ℕ → Flights → Flights
coalesce key fl =
    if is_flying key fl.inflight
    then fl
    else record { inflight = key ∷ fl.inflight; started = key ∷ fl.started }

-- `p.then(…)`: the promise settled, either way.
unfoldable pub settled : ℕ → Flights → Flights
settled key fl = record fl { inflight = landed key fl.inflight }

pub data Call : Type 0 where
  requests : ℕ → Call
  settles : ℕ → Call

abbrev pub run : List Call → Flights → Flights
run [] fl = fl
run (requests key ∷ calls) fl = run calls (coalesce key fl)
run (settles key ∷ calls) fl = run calls (settled key fl)

-- Some call asks for `key`; some call settles the fetch of `key`.
abbrev pub asks : ℕ → List Call → Bool
asks key [] = false
asks key (requests k ∷ calls) = k == key || asks key calls
asks key (settles k ∷ calls) = asks key calls

abbrev pub lands : ℕ → List Call → Bool
lands key [] = false
lands key (requests k ∷ calls) = lands key calls
lands key (settles k ∷ calls) = k == key || lands key calls

-- How many fetches of `key` began.
abbrev pub fetches : ℕ → Flights → ℕ
fetches key fl = count_where (λ k. k == key) fl.started

is_flying-landed :
    (key other : ℕ) (ks : List ℕ)
    → (other == key) ≡ false
    → is_flying key (landed other ks) ≡ is_flying key ks
is_flying-landed key other [] ne = refl
is_flying-landed key other (k ∷ ks) ne = ground (arith, is_flying-landed key other ks ne)

coalesce_flying :
    (key other : ℕ) (fl : Flights)
    → is_flying key fl.inflight ≡ true
    → (is_flying key (coalesce other fl).inflight ≡ true)
      × (fetches key (coalesce other fl) ≡ fetches key fl)
unfolding coalesce
coalesce_flying key other fl up = elim (Bool-cases (is_flying other fl.inflight)) [
  | inl joined ↦ rw joined (up, refl)
  | inr starts ↦ elim (Bool-cases (other == key)) [
    | inl same ↦ absurd (ground arith)
    | inr apart ↦ ground arith
  ]
]

flying_lem :
    (key : ℕ) (calls : List Call) (fl : Flights)
    → lands key calls ≡ false
    → is_flying key fl.inflight ≡ true
    → fetches key (run calls fl) ≡ fetches key fl
unfolding settled
flying_lem key [] fl still up = refl
flying_lem key (requests other ∷ calls) fl still up =
    let (up', same) = coalesce_flying key other fl up in
    flying_lem key calls (coalesce other fl) still up' ∙ same
flying_lem key (settles other ∷ calls) fl still up =
    let apart : (other == key) ≡ false = ground arith in
    flying_lem key calls (settled other fl) (ground arith)
      (is_flying-landed key other fl.inflight apart ∙ up)

coalesce-starts :
    (key : ℕ) (fl : Flights)
    → is_flying key fl.inflight ≡ false
    → (is_flying key (coalesce key fl).inflight ≡ true)
      × (fetches key (coalesce key fl) ≡ fetches key fl + 1)
unfolding coalesce
coalesce-starts key fl down = ground arith

coalesce_other :
    (key other : ℕ) (fl : Flights)
    → (other == key) ≡ false
    → (is_flying key (coalesce other fl).inflight ≡ is_flying key fl.inflight)
      × (fetches key (coalesce other fl) ≡ fetches key fl)
unfolding coalesce
coalesce_other key other fl apart = elim (Bool-cases (is_flying other fl.inflight)) [
  | inl joined ↦ rw joined (refl, refl)
  | inr starts ↦ ground arith
]

settled_lem :
    (key other : ℕ) (fl : Flights)
    → (other == key) ≡ false
    → (is_flying key (settled other fl).inflight ≡ is_flying key fl.inflight)
      × (fetches key (settled other fl) ≡ fetches key fl)
unfolding settled
settled_lem key other fl apart = (is_flying-landed key other fl.inflight apart, refl)

-- However many calls ask for a key before its fetch settles, in whatever order and between requests
-- and settlements of other keys, exactly one fetch of it begins, where none was running.
pub run-fetches :
    (key : ℕ) (calls : List Call) (fl : Flights)
    → asks key calls ≡ true
    → lands key calls ≡ false
    → is_flying key fl.inflight ≡ false
    → fetches key (run calls fl) ≡ fetches key fl + 1
run-fetches key [] fl asked still down = absurd (ground arith)
run-fetches key (requests other ∷ calls) fl asked still down = elim (Bool-cases (other == key)) [
  | inl same ↦
      let is_key : other ≡ key = ground arith in
      let (up, more) = coalesce-starts key fl down in
      ap (λ k. fetches key (run calls (coalesce k fl))) is_key
      ∙ flying_lem key calls (coalesce key fl) still up
      ∙ more
  | inr apart ↦
      let (kept, same) = coalesce_other key other fl apart in
      run-fetches key calls (coalesce other fl) (ground arith) still (kept ∙ down)
      ∙ ap (λ n. n + 1) same
]
run-fetches key (settles other ∷ calls) fl asked still down =
    let apart : (other == key) ≡ false = ground arith in
    let (kept, same) = settled_lem key other fl apart in
    run-fetches key calls (settled other fl) asked (ground arith) (kept ∙ down)
    ∙ ap (λ n. n + 1) same
