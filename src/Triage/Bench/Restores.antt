-- ===== src/Triage/Bench/Restores.antt =====
-- A repair that triage/bench.py scores as restoring the balances, once ledger/post.py has posted it.
use mathlib.Core.List.{Memᴰ}
use ledger_proof.Base.{
  ℕ, String, Bool, true, false, Option, some, List, [], ◌∷◌, all, map, str_eq, if◌then◌else◌, ◌≡◌,
  refl, sym, ap, ◌∙◌, arith, Every, Bool-cases, inl, inr, eq_iff, ok, &&-split,
}
use ledger_proof.Base.Int.{ℤ, pos, ◌+ℤ◌, neg, ◌==ℤ◌, ==ℤ_iff, int_laws, +ℤ-zero, +ℤ_assoc}
use ledger_proof.Base.Dict.{Dict, lookup, insert, lookup-insert}
use ledger_proof.Base.Dict.Same.{keys, IsDict, lookup-absent, insert-IsDict, same_dict-lookup}
use ledger_proof.Base.Names.{among}
use ledger_proof.Recon.Expected.{nonzero, amount_in}
use ledger_proof.Ledger.Schema.{Direction, debit, credit, dir_eq, Account, Db, seed_accounts}
use ledger_proof.Ledger.Post.{Conflict, attempt, posted}
use ledger_proof.Ledger.Balances.{balance_of}
use ledger_proof.Ledger.Balances.Moves.{moved}
use ledger_proof.Ledger.Balances.Seeds.{Every-Memᴰ, attempt-moved}
use ledger_proof.Triage.Schema.{or_none, RepairEntry, Verdict, is_nil, repair_is_balanced}
use ledger_proof.Triage.Gate.{RepairApproval, entry_of, repair_transaction, sides, balanced-sides}
use ledger_proof.Triage.Bench.{
  account_normals, Case, effect, apply_entries, apply_repair, repair_restores_expected_balances,
}

abbrev name_of : Direction → String
name_of debit = "debit"
name_of credit = "credit"

-- What an entry adds to an account of the chart is what its posted entry moves there.
effect-moved :
    (e : RepairEntry) (normal : Direction)
    → sides e ≡ true
    → effect e (some (name_of normal))
      ≡ (if dir_eq (entry_of e).dir normal then e.amount_minor else neg e.amount_minor)
effect-moved e debit sided = elim (Bool-cases (str_eq e.direction "debit")) [
  | inl left ↦ rw left refl
  | inr right ↦ rw right refl
]
effect-moved e credit sided = elim (Bool-cases (str_eq e.direction "debit")) [
  | inl left ↦
      let other : str_eq e.direction "credit" ≡ false =
        ap (λ (s : String). str_eq s "credit") ((eq_iff e.direction "debit").0 left) in
      rw (left, other) refl
  | inr right ↦
      let other : str_eq e.direction "credit" ≡ true = ground (arith, sided, right) in
      rw (right, other) refl
]

amount_in-insert :
    (d : Dict ℤ) (k n : String) (v : ℤ)
    → amount_in (insert k v d) n ≡ (if str_eq n k then v else amount_in d n)
amount_in-insert d k n v =
    ap or_none (lookup-insert k n v d)
    ∙ elim (Bool-cases (str_eq n k)) [ inl own ↦ rw own refl | inr past ↦ rw past refl ]

apply_entries-moved :
    (es : List RepairEntry) (d : Dict ℤ) (n : String) (normal : Direction)
    → lookup n account_normals ≡ some (name_of normal)
    → all sides es ≡ true
    → amount_in (apply_entries es d) n ≡ amount_in d n +ℤ moved n normal (map entry_of es)
unfolding apply_entries moved
apply_entries-moved [] d n normal known sided = sym (+ℤ-zero (amount_in d n))
apply_entries-moved (e ∷ es) d n normal known sided =
    let (own, rest) = &&-split (sides e) (all sides es) sided in
    let now = amount_in d e.account_name +ℤ effect e (lookup e.account_name account_normals) in
    apply_entries-moved es (insert e.account_name now d) n normal known rest
    ∙ ap (λ (x : ℤ). x +ℤ moved n normal (map entry_of es))
        (amount_in-insert d e.account_name n now)
    ∙ elim (Bool-cases (str_eq n e.account_name)) [
      | inl here ↦
          let same : n ≡ e.account_name = ground (arith, eq_iff n e.account_name, here) in
          let back : str_eq e.account_name n ≡ true =
            ground (arith, eq_iff n e.account_name, eq_iff e.account_name n, here) in
          let own_side : lookup e.account_name account_normals ≡ some (name_of normal) =
            ap (λ (x : String). lookup x account_normals) (sym same) ∙ known in
          let shift = effect e (lookup e.account_name account_normals) in
          let later = moved n normal (map entry_of es) in
          rw (here, back)
            (ap (λ (x : String). amount_in d x +ℤ shift +ℤ later) (sym same)
              ∙ ap (λ (x : ℤ). amount_in d n +ℤ x +ℤ later)
                  (ap (effect e) own_side ∙ effect-moved e normal own)
              ∙ +ℤ_assoc (amount_in d n) _ later)
      | inr past ↦
          let back : str_eq e.account_name n ≡ false =
            ground (arith, eq_iff n e.account_name, eq_iff e.account_name n, past) in
          rw (past, back) (omega int_laws)
    ]

apply_entries-IsDict : (es : List RepairEntry) (d : Dict ℤ) → IsDict d → IsDict (apply_entries es d)
unfolding apply_entries
apply_entries-IsDict [] d h = h
apply_entries-IsDict (e ∷ es) d h = apply_entries-IsDict es _ (insert-IsDict e.account_name _ d h)

among-nonzero :
    (n : String) (d : Dict ℤ) → among (keys d) n ≡ false → among (keys (nonzero d)) n ≡ false
unfolding nonzero
among-nonzero n [] h = refl
among-nonzero n ((k, v) ∷ d) h = elim (Bool-cases (v ==ℤ pos 0)) [
  | inl empty ↦ rw empty (among-nonzero n d (ground (arith, h)))
  | inr held ↦ rw held (ground (arith, h, among-nonzero n d))
]

nonzero-IsDict : (d : Dict ℤ) → IsDict d → IsDict (nonzero d)
unfolding nonzero
nonzero-IsDict [] h = tt
nonzero-IsDict ((k, v) ∷ d) h = elim (Bool-cases (v ==ℤ pos 0)) [
  | inl empty ↦ rw empty (nonzero-IsDict d h.1)
  | inr held ↦ rw held (among-nonzero k d h.0, nonzero-IsDict d h.1)
]

amount_in-cons :
    (k : String) (v : ℤ) (d : Dict ℤ) (n : String)
    → amount_in ((k, v) ∷ d) n ≡ (if str_eq n k then v else amount_in d n)
unfolding lookup
amount_in-cons k v d n = either (str_eq n k) (lookup n d)
  where
    either :
        (b : Bool) (o : Option ℤ) → or_none (if b then some v else o) ≡ (if b then v else or_none o)
    either true o = refl
    either false o = refl

amount_in-absent : (d : Dict ℤ) (n : String) → among (keys d) n ≡ false → amount_in d n ≡ pos 0
amount_in-absent d n h = ap or_none (lookup-absent n d h)

amount_in-nonzero : (d : Dict ℤ) (n : String) → IsDict d → amount_in (nonzero d) n ≡ amount_in d n
unfolding nonzero
amount_in-nonzero [] n h = refl
amount_in-nonzero ((k, v) ∷ d) n h = elim (Bool-cases (v ==ℤ pos 0)) [
  | inl empty ↦
      let none_left : v ≡ pos 0 = (==ℤ_iff v (pos 0)).0 empty in
      rw empty (amount_in-nonzero d n h.1 ∙ sym (amount_in-cons k v d n ∙ skipped none_left))
  | inr held ↦ rw held (
      amount_in-cons k v (nonzero d) n
      ∙ ap (λ (x : ℤ). if str_eq n k then v else x) (amount_in-nonzero d n h.1)
      ∙ sym (amount_in-cons k v d n))
]
  where
    skipped : v ≡ pos 0 → (if str_eq n k then v else amount_in d n) ≡ amount_in d n
    skipped none_left = elim (Bool-cases (str_eq n k)) [
      | inl own ↦
          let same : n ≡ k = (eq_iff n k).0 own in
          rw own (
            none_left
            ∙ sym (amount_in-absent d n (ap (λ (x : String). among (keys d) x) same ∙ h.0)))
      | inr past ↦ rw past refl
    ]

-- What the score says of the amounts.
pub record Restored (c : Case) (v : Verdict) : Type 0 where
  pub even : repair_is_balanced v.proposed_repair ≡ true
  pub amounts :
      (n : String) (normal : Direction)
      → lookup n account_normals ≡ some (name_of normal)
      → amount_in c.observed_delta n +ℤ moved n normal (map entry_of v.proposed_repair)
        ≡ amount_in c.expected_delta n

restores-Restored :
    (c : Case) (v : Verdict)
    → IsDict c.observed_delta
    → IsDict c.expected_delta
    → repair_restores_expected_balances c v ≡ true
    → Restored c v
unfolding repair_restores_expected_balances apply_repair
restores-Restored c v od ed scored = elim (Bool-cases (is_nil v.proposed_repair)) [
  | inl empty ↦ absurd (let it = rw empty at scored in cc)
  | inr some_legs ↦ elim (Bool-cases (repair_is_balanced v.proposed_repair)) [
    | inr uneven ↦ absurd (let it = rw (some_legs, uneven) at scored in cc)
    | inl even ↦
        let es = v.proposed_repair in
        let repaired = apply_entries es c.observed_delta in
        let rd = apply_entries-IsDict es c.observed_delta od in
        record {
          even = even;
          amounts = λ n normal known.
              sym (apply_entries-moved es c.observed_delta n normal known (balanced-sides es even))
              ∙ sym (amount_in-nonzero repaired n rd)
              ∙ ap or_none (
                  same_dict-lookup (nonzero repaired) (nonzero c.expected_delta) n
                    (nonzero-IsDict repaired rd) (nonzero-IsDict c.expected_delta ed)
                    (rw (some_legs, even) at scored))
              ∙ amount_in-nonzero c.expected_delta n ed;
        }
  ]
]

seeds_named : Every (λ a. lookup a.name account_normals ≡ some (name_of a.normal)) seed_accounts
unfolding lookup
seeds_named = (refl, (refl, (refl, (refl, (refl, (refl, (refl, tt)))))))

-- When the benchmark scores a repair as restoring the expected balances of a case, and the
-- transaction that the gate makes of it is posted on the seeded chart, then every account whose
-- balance was some amount plus what the case observed has afterwards that amount plus what the
-- case expected, the dicts of the case having distinct keys: the arithmetic of apply_repair is
-- that of the ledger.
pub restored_posts :
    (c : Case) (v : Verdict) (approval : RepairApproval) (id : ℕ) (occurred_at : ℤ)
    (conflict : Conflict) (db : Db) (a : Account) (before : ℤ)
    → IsDict c.observed_delta
    → IsDict c.expected_delta
    → repair_restores_expected_balances c v ≡ true
    → db.accounts ≡ seed_accounts
    → Memᴰ a seed_accounts
    → balance_of a db.entries ≡ before +ℤ amount_in c.observed_delta a.name
    → (attempt conflict db (repair_transaction id occurred_at v approval)).0 ≡ ok posted
    → balance_of a (attempt conflict db (repair_transaction id occurred_at v approval)).1.entries
      ≡ before +ℤ amount_in c.expected_delta a.name
restored_posts c v approval id occurred_at conflict db a before od ed scored chart is_there held
      went =
    let shift = moved a.name a.normal (map entry_of v.proposed_repair) in
    let r = restores-Restored c v od ed scored in
    attempt-moved conflict db (repair_transaction id occurred_at v approval) a chart is_there went
    ∙ ap (λ (x : ℤ). x +ℤ shift) held
    ∙ +ℤ_assoc before (amount_in c.observed_delta a.name) shift
    ∙ ap (λ (x : ℤ). before +ℤ x)
        (r.amounts a.name a.normal (
          Every-Memᴰ (λ (x : Account). lookup x.name account_normals ≡ some (name_of x.normal)) a
            seed_accounts is_there seeds_named))
