-- ===== src/Triage/Bench/Metrics/Confusion.antt =====
-- How much the confusion matrix of triage/bench.py holds.
use ledger_proof.Base.{
  ℕ, ◌+◌, String, Option, none, some, is_some, List, [], ◌∷◌, str_eq, if◌then◌else◌, ◌≡◌, refl, ◌∙◌,
  arith, Bool-cases, inl, inr,
}
use Prim.Native.String.{compare}
use text.Mathlib.Text.{is_lt}
use ledger_proof.Base.Dict.{Dict, lookup, insert}
use ledger_proof.Triage.Bench.Score.{Scored}
use ledger_proof.Triage.Bench.Metrics.{
  tally, insert_item, sort_items, count_of, bump, row_of, confuse, fill, sorted_rows, confusion,
}

-- What the values of a dict weigh together.
abbrev weigh {ℓ} : {V : Type ℓ} → (V → ℕ) → Dict V → ℕ
weigh w [] = 0
weigh w ((k, v) ∷ d) = w v + weigh w d

abbrev weight_of {ℓ} : {V : Type ℓ} → (V → ℕ) → Option V → ℕ
weight_of w none = 0
weight_of w (some v) = w v

weigh-insert {ℓ} :
    {V : Type ℓ} (w : V → ℕ) (k : String) (v : V) (d : Dict V)
    → weigh w (insert k v d) + weight_of w (lookup k d) ≡ weigh w d + w v
unfolding insert lookup
weigh-insert w k v [] = omega arith
weigh-insert w k v ((own, held) ∷ d) = elim (Bool-cases (str_eq k own)) [
  | inl here ↦ rw here (omega arith)
  | inr past ↦ rw past (omega (arith, weigh-insert w k v d))
]

weigh-insert_item {ℓ} :
    {V : Type ℓ} (w : V → ℕ) (kv : String × V) (d : Dict V)
    → weigh w (insert_item kv d) ≡ w kv.1 + weigh w d
unfolding insert_item
weigh-insert_item w kv [] = refl
weigh-insert_item w kv (own ∷ d) = elim (Bool-cases (is_lt (compare own.0 kv.0))) [
  | inl lower ↦ rw lower (omega (arith, weigh-insert_item w kv d))
  | inr upper ↦ rw upper refl
]

weigh-sort_items {ℓ} : {V : Type ℓ} (w : V → ℕ) (d : Dict V) → weigh w (sort_items d) ≡ weigh w d
unfolding sort_items
weigh-sort_items w [] = refl
weigh-sort_items w (kv ∷ d) =
    weigh-insert_item w kv (sort_items d) ∙ omega (arith, weigh-sort_items w d)

abbrev itself : ℕ → ℕ
itself n = n

abbrev pub row_total : Dict ℕ → ℕ
row_total row = weigh itself row

abbrev pub total : Dict (Dict ℕ) → ℕ
total matrix = weigh row_total matrix

row_total-bump : (name : String) (row : Dict ℕ) → row_total (bump name row) ≡ row_total row + 1
row_total-bump name row =
    of_count (lookup name row) (row_total (bump name row)) (row_total row)
      (weigh-insert itself name (count_of (lookup name row) + 1) row)
  where
    of_count : (o : Option ℕ) (m k : ℕ) → m + weight_of itself o ≡ k + (count_of o + 1) → m ≡ k + 1
    of_count none m k h = omega (arith, h)
    of_count (some n) m k h = omega (arith, h)

total-confuse :
    (s : Scored) (o : Option String) (matrix : Dict (Dict ℕ))
    → total (confuse s o matrix) ≡ total matrix + (if is_some o then 1 else 0)
total-confuse s none matrix = omega arith
total-confuse s (some predicted) matrix =
    let row = row_of (lookup s.label_fault matrix) in
    of_row (lookup s.label_fault matrix) (total (confuse s (some predicted) matrix)) (total matrix)
      (row_total (bump predicted row)) (row_total-bump predicted row)
      (weigh-insert row_total s.label_fault (bump predicted row) matrix)
  where
    of_row :
        (o : Option (Dict ℕ)) (m k now : ℕ)
        → now ≡ row_total (row_of o) + 1
        → m + weight_of row_total o ≡ k + now
        → m ≡ k + 1
    of_row none m k now h g = omega (arith, h, g)
    of_row (some row) m k now h g = omega (arith, h, g)

total-fill :
    (scored : List Scored) (matrix : Dict (Dict ℕ))
    → total (fill scored matrix) ≡ total matrix + tally (λ s. is_some s.predicted) scored
unfolding fill tally
total-fill [] matrix = omega arith
total-fill (s ∷ scored) matrix =
    omega
      (arith, total-fill scored (confuse s s.predicted matrix), total-confuse s s.predicted matrix)

total-sorted_rows : (matrix : Dict (Dict ℕ)) → total (sorted_rows matrix) ≡ total matrix
total-sorted_rows [] = refl
total-sorted_rows ((fault, row) ∷ matrix) =
    omega (arith, weigh-sort_items itself row, total-sorted_rows matrix)

pub total-confusion :
    (scored : List Scored) → total (confusion scored) ≡ tally (λ s. is_some s.predicted) scored
unfolding confusion
total-confusion scored =
    weigh-sort_items row_total (sorted_rows (fill scored []))
    ∙ total-sorted_rows (fill scored [])
    ∙ omega (arith, total-fill scored [])
