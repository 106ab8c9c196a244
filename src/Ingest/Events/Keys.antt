-- ===== src/Ingest/Events/Keys.antt =====
-- Searches of the table of events: what blocks an insert is found.
use ledger_proof.Base.{
  Bool, true, false, some, List, [], ◌∷◌, ◌++◌, any, find_first, ◌≡◌, refl, ap, Bool-cases, inl,
  inr, ◌⊎◌, ok, err, ok_injective, sym, ◌∙◌,
}
use ledger_proof.Ingest.Events.{EventRow, EventTable, EventKey, same_id, same_object, insert_event}

pub find_first-any :
    {A : Type 0} (p : A → Bool) (xs : List A)
    → any p xs ≡ true
    → (x : A) × (find_first p xs ≡ some x)
find_first-any p [] found = cc
find_first-any p (x ∷ xs) found = elim (Bool-cases (p x)) [
  | inl here ↦ (x, rw (here, find_first) refl)
  | inr past ↦
      let (y, rest) = find_first-any p xs (rw past at found) in (y, rw (past, find_first) rest)
]

-- What is found passes the test, and stands in the list.
pub find_first-inv :
    {A : Type 0} (p : A → Bool) (xs : List A) {x : A}
    → find_first p xs ≡ some x
    → (p x ≡ true) × ((before after : List A) × (xs ≡ before ++ x ∷ after))
find_first-inv p [] found = cc
find_first-inv p (y ∷ ys) {x} found = elim (Bool-cases (p y)) [
  | inl here ↦
      let same : y ≡ x = (let it = rw (here, find_first) at found in cc) in
      (ap p (sym same) ∙ here, ([], ys, ap (λ z. z ∷ ys) same))
  | inr past ↦
      let (passes, (before, after, split)) = find_first-inv p ys (rw (past, find_first) at found) in
      (passes, (y ∷ before, after, ap (λ zs. y ∷ zs) split))
]

pub find_first-append :
    {A : Type 0} (p : A → Bool) (xs : List A) (x : A)
    → any p xs ≡ false
    → p x ≡ true
    → find_first p (xs ++ x ∷ []) ≡ some x
find_first-append p [] x fresh passes = rw passes refl
find_first-append p (y ∷ ys) x fresh passes = elim (Bool-cases (p y)) [
  | inl here ↦ absurd (let no_more = rw here at fresh in cc)
  | inr past ↦ rw past (find_first-append p ys x (rw past at fresh) passes)
]

pub insert_event-inv :
    (rows : EventTable) (r : EventRow) {rows' : EventTable}
    → insert_event rows r ≡ ok rows'
    → (any (same_id r.id) rows ≡ false)
      × (any (same_object r.event_type r.object_id) rows ≡ false)
      × (rows' ≡ rows ++ r ∷ [])
unfolding insert_event
insert_event-inv rows r done = elim (Bool-cases (any (same_id r.id) rows)) [
  | inl id_taken ↦ absurd (let it = rw id_taken at done in cc)
  | inr id_free ↦ elim (Bool-cases (any (same_object r.event_type r.object_id) rows)) [
    | inl taken ↦ absurd (let it = rw (id_free, taken) at done in cc)
    | inr free ↦ (id_free, free, sym (ok_injective (rw (id_free, free) at done)))
  ]
]

-- A refused insert is blocked by a row with the id or with the object's key.
pub insert_event-blocked :
    (rows : EventTable) (r : EventRow) {key : EventKey}
    → insert_event rows r ≡ err key
    → (any (same_id r.id) rows ≡ true) ⊎ (any (same_object r.event_type r.object_id) rows ≡ true)
unfolding insert_event
insert_event-blocked rows r done = elim (Bool-cases (any (same_id r.id) rows)) [
  | inl id_taken ↦ inl id_taken
  | inr id_free ↦ elim (Bool-cases (any (same_object r.event_type r.object_id) rows)) [
    | inl taken ↦ inr taken
    | inr free ↦ absurd (let it = rw (id_free, free) at done in cc)
  ]
]
