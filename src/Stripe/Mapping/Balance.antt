-- ===== src/Stripe/Mapping/Balance.antt =====
-- Every transaction that stripe_io/mapping.py builds is balanced.
use ledger_proof.Base.{
  ℕ, String, Bool, true, false, Option, none, some, List, [], ◌∷◌, ◌≡◌, ◌≢◌, refl, ap, subst, ◌∙◌,
  inl, inr, Bool-cases, Every, Result, ok, >>=-inv, ok_injective, if◌then◌else◌,
}
use ledger_proof.Base.Int.{ℤ, pos, ◌+ℤ◌, ◌==ℤ◌, ==ℤ_iff, int_laws}
use ledger_proof.Base.Json.{Value, str, obj, Fields}
use ledger_proof.Ledger.Schema.{Direction, debit, credit, dir_eq}
use ledger_proof.Ledger.Post.{Entry, LedgerTransaction}
use ledger_proof.Stripe.Mapping.{
  Raised, subscript, as_number, charge_fee, dispute_fee, add, charge_entries, refund_entries,
  dispute_entries, payout_entries, refund_amount, Kind, charge, intent, refund, dispute, payout,
  entries_for, object_entries, build_handled, build_transaction, as_text, currency_of, handled_kind,
  is_text, money_movement_object_id,
}

-- The sum of the entries of one direction.
unfoldable pub entry_sum : Direction → List Entry → ℤ
entry_sum d [] = pos 0
entry_sum d (e ∷ es) = (if dir_eq e.dir d then e.amount_minor else pos 0) +ℤ entry_sum d es

-- Debits equal credits, every entry is in one currency, and none is zero.
pub record IsBalanced (cur : String) (es : List Entry) : Type 0 where
  pub sums : entry_sum debit es ≡ entry_sum credit es
  pub one_currency : Every (λ e. e.currency ≡ cur) es
  pub none_zero : Every (λ e. e.amount_minor ≢ pos 0) es

if_same : (b : Bool) → (if b then pos 0 else pos 0) ≡ pos 0
if_same true = refl
if_same false = refl

sum_nil : (d : Direction) → entry_sum d [] ≡ pos 0
unfolding entry_sum
sum_nil d = refl

module _ (cur : String) where
  sum-add :
      (d : Direction) (n : String) (d' : Direction) (x : ℤ) (es : List Entry)
      → entry_sum d (add cur n d' x es) ≡ (if dir_eq d' d then x else pos 0) +ℤ entry_sum d es
  unfolding add entry_sum
  sum-add d n d' x es = elim (Bool-cases (x ==ℤ pos 0)) [
    | inl zero ↦ rw (zero, (==ℤ_iff x (pos 0)).0 zero, if_same (dir_eq d' d)) (omega int_laws)
    | inr other ↦ rw other
  ]

  currency-add :
      (n : String) (d : Direction) (x : ℤ) (es : List Entry)
      → Every (λ e. e.currency ≡ cur) es
      → Every (λ e. e.currency ≡ cur) (add cur n d x es)
  unfolding add
  currency-add n d x es h = elim (Bool-cases (x ==ℤ pos 0)) [
    | inl zero ↦ rw zero h
    | inr other ↦ rw other (refl, h)
  ]

  nonzero-add :
      (n : String) (d : Direction) (x : ℤ) (es : List Entry)
      → Every (λ e. e.amount_minor ≢ pos 0) es
      → Every (λ e. e.amount_minor ≢ pos 0) (add cur n d x es)
  unfolding add
  nonzero-add n d x es h = elim (Bool-cases (x ==ℤ pos 0)) [
    | inl zero ↦ rw zero h
    | inr other ↦ rw other (λ e. cc (other, (==ℤ_iff x (pos 0)).1 e), h)
  ]

  charge_entries-IsBalanced : (gross fee : ℤ) → IsBalanced cur (charge_entries cur gross fee)
  unfolding charge_entries
  charge_entries-IsBalanced gross fee = record {
    sums = simp (sum-add, sum_nil) (omega int_laws);
    one_currency = currency-add _ _ _ _ (currency-add _ _ _ _ (currency-add _ _ _ _ tt));
    none_zero = nonzero-add _ _ _ _ (nonzero-add _ _ _ _ (nonzero-add _ _ _ _ tt));
  }

  refund_entries-IsBalanced : (amount : ℤ) → IsBalanced cur (refund_entries cur amount)
  unfolding refund_entries
  refund_entries-IsBalanced amount = record {
    sums = simp (sum-add, sum_nil) (omega int_laws);
    one_currency = currency-add _ _ _ _ (currency-add _ _ _ _ tt);
    none_zero = nonzero-add _ _ _ _ (nonzero-add _ _ _ _ tt);
  }

  dispute_entries-IsBalanced : (amount fee : ℤ) → IsBalanced cur (dispute_entries cur amount fee)
  unfolding dispute_entries
  dispute_entries-IsBalanced amount fee = record {
    sums = simp (sum-add, sum_nil) (omega int_laws);
    one_currency = currency-add _ _ _ _ (currency-add _ _ _ _ (currency-add _ _ _ _ tt));
    none_zero = nonzero-add _ _ _ _ (nonzero-add _ _ _ _ (nonzero-add _ _ _ _ tt));
  }

  payout_entries-IsBalanced : (amount : ℤ) → IsBalanced cur (payout_entries cur amount)
  unfolding payout_entries
  payout_entries-IsBalanced amount = record {
    sums = simp (sum-add, sum_nil) (omega int_laws);
    one_currency = currency-add _ _ _ _ (currency-add _ _ _ _ tt);
    none_zero = nonzero-add _ _ _ _ (nonzero-add _ _ _ _ tt);
  }

  entries_for-IsBalanced :
      (k : Kind) (o : Fields) (fee : Option ℤ) {es : List Entry}
      → entries_for k o cur fee ≡ ok es
      → IsBalanced cur es
  unfolding entries_for
  entries_for-IsBalanced charge o fee h =
      let (paid, _, h1) = >>=-inv (subscript (obj o) "amount") _ h in
      let (f, _, h2) = >>=-inv (charge_fee o fee) _ h1 in
      let (n, _, h3) = >>=-inv (as_number paid) _ h2 in
      subst (IsBalanced cur) (ok_injective h3) (charge_entries-IsBalanced n f)
  entries_for-IsBalanced intent o fee h =
      let (paid, _, h1) = >>=-inv (subscript (obj o) "amount_received") _ h in
      let (f, _, h2) = >>=-inv (charge_fee o fee) _ h1 in
      let (n, _, h3) = >>=-inv (as_number paid) _ h2 in
      subst (IsBalanced cur) (ok_injective h3) (charge_entries-IsBalanced n f)
  entries_for-IsBalanced refund o fee h =
      let (n, _, h1) = >>=-inv (refund_amount o) _ h in
      subst (IsBalanced cur) (ok_injective h1) (refund_entries-IsBalanced n)
  entries_for-IsBalanced dispute o fee h =
      let (paid, _, h1) = >>=-inv (subscript (obj o) "amount") _ h in
      let (f, _, h2) = >>=-inv (dispute_fee o fee) _ h1 in
      let (n, _, h3) = >>=-inv (as_number paid) _ h2 in
      subst (IsBalanced cur) (ok_injective h3) (dispute_entries-IsBalanced n f)
  entries_for-IsBalanced payout o fee h =
      let (paid, _, h1) = >>=-inv (subscript (obj o) "amount") _ h in
      let (n, _, h2) = >>=-inv (as_number paid) _ h1 in
      subst (IsBalanced cur) (ok_injective h2) (payout_entries-IsBalanced n)

  object_entries-IsBalanced :
      (v : Value) (k : Kind) (fee : Option ℤ) {es : List Entry}
      → object_entries v k cur fee ≡ ok es
      → IsBalanced cur es
  unfolding object_entries
  object_entries-IsBalanced (obj o) k fee h = entries_for-IsBalanced k o fee h
  object_entries-IsBalanced _ k fee h = cc

-- What is known of a transaction that was built from an event.
pub record IsMapped (uuid5 : String → ℕ) (event : Fields) (t : LedgerTransaction) : Type 0 where
  pub event_id : String
  pub currency : String
  pub named : subscript (obj event) "id" ≡ ok (str event_id)
  pub id_derived : t.id ≡ uuid5 event_id
  pub id_kept : t.stripe_event_id ≡ some event_id
  pub balanced : IsBalanced currency t.entries

module _ (uuid5 : String → ℕ) (event : Fields) where
  as_text_ok : (v : Value) {s : String} → as_text v ≡ ok s → v ≡ str s
  as_text_ok (str s) h = ap str (ok_injective h)
  as_text_ok _ h = cc

  build_handled-IsMapped :
      (etype : Value) (k : Kind) (fee : Option ℤ) {t : LedgerTransaction}
      → build_handled uuid5 event etype k fee ≡ ok t
      → IsMapped uuid5 event t
  unfolding build_handled
  build_handled-IsMapped etype k fee h =
      let (d, _, h1) = >>=-inv (subscript (obj event) "data") _ h in
      let (object, _, h2) = >>=-inv (subscript d "object") _ h1 in
      let (c, _, h3) = >>=-inv (subscript object "currency") _ h2 in
      let (cur, _, h4) = >>=-inv (currency_of c) _ h3 in
      let (es, mapped, h5) = >>=-inv (object_entries object k cur fee) _ h4 in
      let (i, named, h6) = >>=-inv (subscript (obj event) "id") _ h5 in
      let (id, text, h7) = >>=-inv (as_text i) _ h6 in
      let (v, _, h8) = >>=-inv (subscript (obj event) "created") _ h7 in
      let (created, _, h9) = >>=-inv (as_number v) _ h8 in
      let (o, _, h10) = >>=-inv (money_movement_object_id event) _ h9 in
      subst (IsMapped uuid5 event) (ok_injective h10) (record {
        event_id = id;
        currency = cur;
        named = named ∙ ap ok (as_text_ok i text);
        id_derived = refl;
        id_kept = refl;
        balanced = object_entries-IsBalanced cur object k fee mapped;
      })

  -- Whatever the payload, a transaction that an event is mapped to names that event, has the id
  -- derived from the event's id, and is balanced: all its entries are in one currency, none is of
  -- amount 0, and its debits equal its credits.
  pub build_transaction-IsMapped :
      (fee : Option ℤ) {t : LedgerTransaction}
      → build_transaction uuid5 event fee ≡ ok (some t)
      → IsMapped uuid5 event t
  unfolding build_transaction
  build_transaction-IsMapped fee {t} h =
      let (etype, _, h1) = >>=-inv (subscript (obj event) "type") _ h in
      let (d, _, h2) = >>=-inv (subscript (obj event) "data") _ h1 in
      let (object, _, h3) = >>=-inv (subscript d "object") _ h2 in
      elim (Bool-cases (is_text (some etype) "invoice.payment_failed")) [
        | inl none_moved ↦ absurd (nothing_built (rw none_moved at h3))
        | inr moved ↦
            let (k, _, h4) = >>=-inv (handled_kind etype) _ (rw moved at h3) in
            let (u, built, h5) = >>=-inv (build_handled uuid5 event etype k fee) _ h4 in
            subst (IsMapped uuid5 event) (some_same (ok_injective h5))
              (build_handled-IsMapped etype k fee built)
      ]
    where
      nothing_built : ◌≡◌ {A = Result Raised (Option LedgerTransaction)} (ok none) (ok (some t)) → ⊥
      nothing_built e = cc

      some_same :
          {a b : LedgerTransaction} → ◌≡◌ {A = Option LedgerTransaction} (some a) (some b) → a ≡ b
      some_same e = cc
