-- ===== src/Harness/Events/Truth.antt =====
-- The sums of harness/events.py, `_delta`, against those of the view `account_balances`.
use ledger_proof.Base.{
  String, true, false, List, [], ◌∷◌, ◌≡◌, refl, sym, ap, ◌∙◌, inl, inr, arith, str_eq, Bool-cases,
  str_cases, eq_refl, eq_iff, ok, >>=-inv, if◌then◌else◌, ok_injective,
}
use ledger_proof.Base.Int.{ℤ, pos, ◌+ℤ◌, ◌==ℤ◌, ==ℤ_iff, neg, +ℤ-zero, zero-+ℤ, +ℤ_assoc}
use ledger_proof.Base.Dict.{Dict, lookup, insert, lookup-insert}
use ledger_proof.Ledger.Schema.{Direction, debit, credit}
use ledger_proof.Ledger.Post.{Entry}
use ledger_proof.Ledger.Balances.Moves.{moved}
use ledger_proof.Stripe.Mapping.{add}
use ledger_proof.Harness.Events.{Line, delta, signed_delta, normal_of, toward, or_zero}

pub line_sum : String → Direction → List Line → ℤ
line_sum n normal [] = pos 0
line_sum n normal ((account, dir, amount) ∷ lines) =
    (if str_eq account n then toward normal dir amount else pos 0) +ℤ line_sum n normal lines

-- The entries that the closure `add` of the mapping makes of the lines.
abbrev pub added : String → List Line → List Entry
added cur [] = []
added cur ((account, dir, amount) ∷ lines) = add cur account dir amount (added cur lines)

toward_zero : (normal dir : Direction) → toward normal dir (pos 0) ≡ pos 0
unfolding neg
toward_zero debit debit = refl
toward_zero debit credit = refl
toward_zero credit debit = refl
toward_zero credit credit = refl

skipped :
    (n account : String) (normal dir : Direction) (amount x : ℤ)
    → (amount ==ℤ pos 0) ≡ true
    → (if str_eq account n then toward normal dir amount else pos 0) +ℤ x ≡ x
skipped n account normal dir amount x h =
    rw ((==ℤ_iff amount (pos 0)).0 h, toward_zero normal dir)
      (elim (Bool-cases (str_eq account n)) [
        | inl same ↦ rw same (zero-+ℤ x)
        | inr other ↦ rw other (zero-+ℤ x)
      ])

pub moved-added :
    (n cur : String) (normal : Direction) (lines : List Line)
    → moved n normal (added cur lines) ≡ line_sum n normal lines
unfolding moved line_sum add
moved-added n cur normal [] = refl
moved-added n cur normal ((account, dir, amount) ∷ lines) = elim (Bool-cases (amount ==ℤ pos 0)) [
  | inl z ↦ rw z (
      moved-added n cur normal lines
      ∙ sym (skipped n account normal dir amount (line_sum n normal lines) z))
  | inr nz ↦ rw (nz, moved-added n cur normal lines)
]

delta-counted :
    (account : String) (dir : Direction) (amount : ℤ) (lines : List Line) (totals : Dict ℤ)
    {d : Dict ℤ}
    → (amount ==ℤ pos 0) ≡ false
    → delta ((account, dir, amount) ∷ lines) totals ≡ ok d
    → (own : Direction) × (normal_of account ≡ ok own)
      × (delta lines
            (insert account (or_zero (lookup account totals) +ℤ toward own dir amount) totals)
          ≡ ok d)
unfolding delta signed_delta
delta-counted account dir amount lines totals nz done =
    let (m, first, rest) = >>=-inv (signed_delta account dir amount) _ (rw (nz, delta) at done) in
    let (own, known, same) = >>=-inv (normal_of account) _ (first) in
    (own, known, rw (ok_injective same) rest)

delta-skipped :
    (account : String) (dir : Direction) (amount : ℤ) (lines : List Line) (totals : Dict ℤ)
    → (amount ==ℤ pos 0) ≡ true
    → delta ((account, dir, amount) ∷ lines) totals ≡ delta lines totals
unfolding delta
delta-skipped account dir amount lines totals z = rw z refl

same_normal : {a b : Direction} (n : String) → normal_of n ≡ ok a → normal_of n ≡ ok b → a ≡ b
same_normal n first second = ok_injective (sym first ∙ second)

insert-moved :
    (n account : String) (normal own dir : Direction) (amount : ℤ) (totals : Dict ℤ)
    → normal_of n ≡ ok normal
    → normal_of account ≡ ok own
    → or_zero (
        lookup n (insert account (or_zero (lookup account totals) +ℤ toward own dir amount) totals))
      ≡ or_zero (lookup n totals) +ℤ (if str_eq account n then toward normal dir amount else pos 0)
insert-moved n account normal own dir amount totals known known' =
    ap or_zero
      (lookup-insert account n (or_zero (lookup account totals) +ℤ toward own dir amount) totals)
    ∙ elim (str_cases account n) [
      | inl same ↦
          let own_same : own ≡ normal = same_normal n (rw (sym same) known') known in
          rw (same, own_same, eq_refl n) refl
      | inr apart ↦
          let other : str_eq n account ≡ false =
            ground (arith, eq_iff n account, eq_iff account n) in
          rw (other, apart) (sym (+ℤ-zero (or_zero (lookup n totals))))
    ]

delta-nil : (totals : Dict ℤ) → delta [] totals ≡ ok totals
unfolding delta
delta-nil totals = refl

pub delta-lines :
    (n : String) (normal : Direction) (lines : List Line) (totals : Dict ℤ) {d : Dict ℤ}
    → normal_of n ≡ ok normal
    → delta lines totals ≡ ok d
    → or_zero (lookup n d) ≡ or_zero (lookup n totals) +ℤ line_sum n normal lines
unfolding line_sum
delta-lines n normal [] totals known done =
    ap (λ (x : Dict ℤ). or_zero (lookup n x)) (ok_injective (sym done ∙ delta-nil totals))
    ∙ sym (+ℤ-zero (or_zero (lookup n totals)))
delta-lines n normal ((account, dir, amount) ∷ lines) totals known done =
    elim (Bool-cases (amount ==ℤ pos 0)) [
      | inl z ↦
          delta-lines n normal lines totals known
            (sym (delta-skipped account dir amount lines totals z) ∙ done)
          ∙ ap (λ (x : ℤ). or_zero (lookup n totals) +ℤ x)
              (sym (skipped n account normal dir amount (line_sum n normal lines) z))
      | inr nz ↦
          let (own, known', rest) = delta-counted account dir amount lines totals nz done in
          delta-lines n normal lines
            (insert account (or_zero (lookup account totals) +ℤ toward own dir amount) totals) known
            rest
          ∙ ap (λ (x : ℤ). x +ℤ line_sum n normal lines)
              (insert-moved n account normal own dir amount totals known known')
          ∙ +ℤ_assoc (or_zero (lookup n totals)) _ (line_sum n normal lines)
    ]
