-- ===== src/Harness/Scenarios/Fresh.antt =====
-- The numbers that harness/scenarios.py gives to its fixtures.
use ledger_proof.Base.{
  ℕ, zero, suc, ◌+◌, String, none, List, [], ◌∷◌, ◌++◌, map, all, is_some, str_eq, ◌==◌, Result, ok,
  err, >>=-inv, ok_injective, ◌≡◌, refl, sym, ap, ◌∙◌, subst, arith, Bool-cases, inl, inr,
}
use mathlib.Core.List.{append_assoc, append-nil}
use ledger_proof.Base.Int.{ℤ}
use ledger_proof.Stripe.Mapping.{Raised, value_error}
use ledger_proof.Stripe.Signature.{Text}
use ledger_proof.Harness.Events.{EventFixture}
use ledger_proof.Harness.Events.Numbered.{maker_of, id_for}
use ledger_proof.Harness.Faults.{Fault, event_id}
use ledger_proof.Harness.Faults.Build.{plan}
use ledger_proof.Harness.Scenarios.{
  Scenario, Skip, fixture_count, fixture_of, fixtures_of, repeats, over_kinds, over_faults,
  generate, skips, params_for,
}
use ledger_proof.Harness.Events.Ids.{make-event_id}

-- The ids of `n` numbers from `seq` on, and those of the scenarios' fixtures.
abbrev pub ids_from : ℕ → ℕ → List String
ids_from seq zero = []
ids_from seq (suc n) = id_for "evt" seq ∷ ids_from (seq + 1) n

abbrev pub ids_in : List Scenario → List String
ids_in [] = []
ids_in (s ∷ scenarios) = map event_id s.fixtures ++ ids_in scenarios

ids_from-append : (seq m n : ℕ) → ids_from seq m ++ ids_from (seq + m) n ≡ ids_from seq (m + n)
ids_from-append seq zero n = rw (start, none_first) refl
  where
    start : seq + 0 ≡ seq
    start = omega arith

    none_first : 0 + n ≡ n
    none_first = omega arith
ids_from-append seq (suc m) n =
    rw (next, one_first)
      (ap (λ (l : List String). id_for "evt" seq ∷ l) (ids_from-append (seq + 1) m n))
  where
    next : seq + suc m ≡ seq + 1 + m
    next = omega arith

    one_first : suc m + n ≡ suc (m + n)
    one_first = omega arith

ids_in-append : (xs ys : List Scenario) → ids_in (xs ++ ys) ≡ ids_in xs ++ ids_in ys
ids_in-append [] ys = refl
ids_in-append (x ∷ xs) ys =
    ap (λ (l : List String). map event_id x.fixtures ++ l) (ids_in-append xs ys)
    ∙ sym (append_assoc (map event_id x.fixtures) (ids_in xs) (ids_in ys))

-- The scenarios use the numbers from `seq` up to `next`, each once and in order.
pub record Consecutive (seq next : ℕ) (scenarios : List Scenario) : Type 0 where
  pub used : ℕ
  pub ids : ids_in scenarios ≡ ids_from seq used
  pub goes_on : next ≡ seq + used

none_used : (seq : ℕ) → Consecutive seq seq []
none_used seq = record { used = 0; ids = refl; goes_on = omega arith }

then_used :
    {seq middle next : ℕ} {xs ys : List Scenario}
    → Consecutive seq middle xs
    → Consecutive middle next ys
    → Consecutive seq next (xs ++ ys)
then_used {seq} {middle} {next} {xs} {ys} c d = record {
  used = c.used + d.used;
  ids =
      ids_in-append xs ys
      ∙ ap (λ (l : List String). l ++ ids_in ys) c.ids
      ∙ ap (λ (l : List String). ids_from seq c.used ++ l) d.ids
      ∙ ap (λ (k : ℕ). ids_from seq c.used ++ ids_from k d.used) c.goes_on
      ∙ ids_from-append seq c.used d.used;
  goes_on = omega (arith, c.goes_on, d.goes_on);
}

module _ (v1_digest : Text → Text → ℤ → Text) (secret : Text) (clock : ℤ) {Rng : Type 0}
    (randrange : Rng → ℕ → ℕ → ℕ × Rng) where
  fixture_of-event_id :
      (kind : String) (seq : ℕ) (rng : Rng) {f : EventFixture}
      → (fixture_of v1_digest secret clock randrange kind seq rng).0 ≡ ok f
      → event_id f ≡ id_for "evt" seq
  unfolding fixture_of
  fixture_of-event_id kind seq rng made = elim (Bool-cases (str_eq kind "charge_succeeded")) [
    | inl charge ↦ make-event_id clock seq none _ kind (rw charge at made)
    | inr other ↦ elim (Bool-cases (str_eq kind "charge_refunded")) [
      | inl refund ↦ make-event_id clock seq none _ kind (rw (other, refund) at made)
      | inr neither ↦ elim (Bool-cases (str_eq kind "dispute_created")) [
        | inl dispute ↦ make-event_id clock seq none _ kind (rw (other, neither, dispute) at made)
        | inr rest ↦ make-event_id clock seq none _ kind (rw (other, neither, rest) at made)
      ]
    ]
  ]

  fixtures_of-ids :
      (kind : String) (seq count : ℕ) (rng : Rng) {r : List EventFixture × Rng}
      → fixtures_of v1_digest secret clock randrange kind seq count rng ≡ ok r
      → map event_id r.0 ≡ ids_from seq count
  unfolding fixtures_of
  fixtures_of-ids kind seq zero rng made =
      ap (λ (r : List EventFixture × Rng). map event_id r.0) (sym (ok_injective made))
  fixtures_of-ids kind seq (suc count) rng made =
      let (f, drawn, made1) = >>=-inv _ _ made in
      let (more, later, made2) = >>=-inv _ _ made1 in
      ap (λ (r : List EventFixture × Rng). map event_id r.0) (sym (ok_injective made2))
      ∙ ap (λ (id : String). id ∷ map event_id more.0) (fixture_of-event_id kind seq rng drawn)
      ∙ ap (λ (l : List String). id_for "evt" seq ∷ l)
          (fixtures_of-ids kind (seq + 1) count _ later)

  repeats-Consecutive :
      (fault : Fault) (kind : String) (index left seq : ℕ) (rng : Rng) {r : List Scenario × ℕ × Rng}
      → repeats v1_digest secret clock randrange fault kind index left seq rng ≡ ok r
      → Consecutive seq r.1 r.0
  unfolding repeats
  repeats-Consecutive fault kind index zero seq rng made =
      subst (λ (r : List Scenario × ℕ × Rng). Consecutive seq r.1 r.0) (ok_injective made)
        (none_used seq)
  repeats-Consecutive fault kind index (suc left) seq rng made =
      let (drawn, drew, made1) =
        >>=-inv (fixtures_of v1_digest secret clock randrange kind seq (fixture_count fault) rng) _
          made in
      let (built, planned, made2) =
        >>=-inv (plan v1_digest secret fault drawn.0 (params_for fault index) clock) _ made1 in
      let (more, later, made3) =
        >>=-inv
          (repeats v1_digest secret clock randrange fault kind (index + 1) left
            (seq + fixture_count fault) drawn.1)
          _ made2 in
      let first : Consecutive seq (seq + fixture_count fault)
          (record { fault = fault; index = index; fixtures = drawn.0; built = built } ∷ []) =
        record {
          used = fixture_count fault;
          ids =
              append-nil (map event_id drawn.0)
              ∙ fixtures_of-ids kind seq (fixture_count fault) rng drew;
          goes_on = refl;
        } in
      subst (λ (r : List Scenario × ℕ × Rng). Consecutive seq r.1 r.0) (ok_injective made3)
        (then_used first (
          repeats-Consecutive fault kind (index + 1) left (seq + fixture_count fault) drawn.1
            later))

  over_kinds-Consecutive :
      (fault : Fault) (kinds : List String) (per_combo seq : ℕ) (rng : Rng)
      {r : List Scenario × List Skip × ℕ × Rng}
      → over_kinds v1_digest secret clock randrange fault kinds per_combo seq rng ≡ ok r
      → Consecutive seq r.2 r.0
  unfolding over_kinds
  over_kinds-Consecutive fault [] per_combo seq rng made =
      subst (λ (r : List Scenario × List Skip × ℕ × Rng). Consecutive seq r.2 r.0)
        (ok_injective made) (none_used seq)
  over_kinds-Consecutive fault (kind ∷ kinds) per_combo seq rng made =
      elim (Bool-cases (skips fault kind)) [
        | inl skipped ↦
            let (more, later, made1) =
              >>=-inv (over_kinds v1_digest secret clock randrange fault kinds per_combo seq rng) _
                (rw skipped at made) in
            subst (λ (r : List Scenario × List Skip × ℕ × Rng). Consecutive seq r.2 r.0)
              (ok_injective made1) (over_kinds-Consecutive fault kinds per_combo seq rng later)
        | inr run ↦
            let (first, drew, made1) =
              >>=-inv (repeats v1_digest secret clock randrange fault kind 0 per_combo seq rng) _
                (rw run at made) in
            let (more, later, made2) =
              >>=-inv
                (over_kinds v1_digest secret clock randrange fault kinds per_combo first.1 first.2)
                _ made1 in
            subst (λ (r : List Scenario × List Skip × ℕ × Rng). Consecutive seq r.2 r.0)
              (ok_injective made2)
              (then_used (repeats-Consecutive fault kind 0 per_combo seq rng drew)
                (over_kinds-Consecutive fault kinds per_combo first.1 first.2 later))
      ]

  over_faults-Consecutive :
      (faults : List Fault) (kinds : List String) (per_combo seq : ℕ) (rng : Rng)
      {r : List Scenario × List Skip × ℕ × Rng}
      → over_faults v1_digest secret clock randrange faults kinds per_combo seq rng ≡ ok r
      → Consecutive seq r.2 r.0
  unfolding over_faults
  over_faults-Consecutive [] kinds per_combo seq rng made =
      subst (λ (r : List Scenario × List Skip × ℕ × Rng). Consecutive seq r.2 r.0)
        (ok_injective made) (none_used seq)
  over_faults-Consecutive (fault ∷ faults) kinds per_combo seq rng made =
      let (first, drew, made1) =
        >>=-inv (over_kinds v1_digest secret clock randrange fault kinds per_combo seq rng) _
          made in
      let (more, later, made2) =
        >>=-inv
          (over_faults v1_digest secret clock randrange faults kinds per_combo first.2 first.3) _
          made1 in
      subst (λ (r : List Scenario × List Skip × ℕ × Rng). Consecutive seq r.2 r.0)
        (ok_injective made2)
        (then_used (over_kinds-Consecutive fault kinds per_combo seq rng drew)
          (over_faults-Consecutive faults kinds per_combo first.2 first.3 later))

  -- When generate returns, the events of all its scenarios are numbered consecutively from
  -- start_seq, each number once and in order, whatever the faults, kinds, repeats and random
  -- numbers, and the next number is the first that was not used.
  pub generate-Consecutive :
      (faults : List Fault) (kinds : List String) (per_combo start_seq : ℕ) (rng : Rng)
      {r : List Scenario × List Skip × ℕ × Rng}
      → generate v1_digest secret clock randrange faults kinds per_combo start_seq rng ≡ ok r
      → Consecutive start_seq r.2 r.0
  unfolding generate
  generate-Consecutive faults kinds per_combo start_seq rng made =
      elim (Bool-cases (per_combo == 0)) [
        | inl empty ↦ absurd (refused (rw empty at made))
        | inr some_each ↦ elim (Bool-cases (all (λ kind. is_some (maker_of kind)) kinds)) [
          | inl known ↦
              over_faults-Consecutive faults kinds per_combo start_seq rng
                (rw (some_each, known) at made)
          | inr unknown ↦ absurd (refused (rw (some_each, unknown) at made))
        ]
      ]
    where
      refused :
          {r : List Scenario × List Skip × ℕ × Rng}
          → ¬ (
              ◌≡◌ {A = Result Raised (List Scenario × List Skip × ℕ × Rng)}
                (err value_error)
                (ok r))
      refused same = cc
