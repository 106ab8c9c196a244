-- ===== src/Ledger/Balances/Resolved.antt =====
-- What the loop of SELECTs in `_attempt` of ledger/post.py has found.
use ledger_proof.Base.{
  ℕ, String, false, none, some, List, [], ◌∷◌, str_eq, ◌≡◌, refl, sym, ap, subst, ◌∙◌, inl, inr,
  arith, Every, Option-cases, str_cases, eq_refl, ok, ok_injective,
}
use ledger_proof.Base.Dict.{Dict, lookup, insert, lookup-insert}
use ledger_proof.Ledger.Schema.{Account}
use ledger_proof.Ledger.Post.{Entry, account_id, resolve}

-- The ids that the loop of SELECTs has found are those of the accounts.
abbrev pub Found : List Account → Dict ℕ → Type 0
Found accts ids = (n : String) (i : ℕ) → lookup n ids ≡ some i → account_id accts n ≡ some i

insert-here : (n : String) (i : ℕ) (ids : Dict ℕ) → lookup n (insert n i ids) ≡ some i
insert-here n i ids = lookup-insert n n i ids ∙ rw (eq_refl n) refl

insert-other :
    (m n : String) (i : ℕ) (ids : Dict ℕ)
    → str_eq m n ≡ false
    → lookup m (insert n i ids) ≡ lookup m ids
insert-other m n i ids other = lookup-insert n m i ids ∙ rw other refl

Found-insert :
    (accts : List Account) (ids : Dict ℕ) (n : String) (i : ℕ)
    → Found accts ids
    → account_id accts n ≡ some i
    → Found accts (insert n i ids)
Found-insert accts ids n i known here m j h = elim (str_cases m n) [
  | inl same ↦
      ap (account_id accts) same
      ∙ here
      ∙ sym (ap (λ (k : String). lookup k (insert n i ids)) same ∙ insert-here n i ids)
      ∙ h
  | inr other ↦ known m j (sym (insert-other m n i ids other) ∙ h)
]

-- A new name does not change what was found.
insert-keeps :
    (ids : Dict ℕ) (n : String) (i : ℕ)
    → lookup n ids ≡ none
    → (m : String) (j : ℕ) → lookup m ids ≡ some j
    → lookup m (insert n i ids) ≡ some j
insert-keeps ids n i gone m j h = elim (str_cases m n) [
  | inl same ↦ absurd (let it = sym gone ∙ ap (λ (k : String). lookup k ids) (sym same) ∙ h in cc)
  | inr other ↦ insert-other m n i ids other ∙ h
]

-- The account of an entry is found.
abbrev pub IsFound : List Account → Dict ℕ → Entry → Type 0
IsFound accts ids e =
    (i : ℕ) × (lookup e.account_name ids ≡ some i) × (account_id accts e.account_name ≡ some i)

abbrev pub Keeps : Dict ℕ → Dict ℕ → Type 0
Keeps ids end = (n : String) (i : ℕ) → lookup n ids ≡ some i → lookup n end ≡ some i

resolve-known :
    (accts : List Account) (e : Entry) (es : List Entry) (ids : Dict ℕ) {i : ℕ}
    → lookup e.account_name ids ≡ some i
    → resolve accts (e ∷ es) ids ≡ resolve accts es ids
unfolding resolve
resolve-known accts e es ids here = rw (here, resolve) refl

resolve-new :
    (accts : List Account) (e : Entry) (es : List Entry) (ids : Dict ℕ) {i : ℕ}
    → lookup e.account_name ids ≡ none
    → account_id accts e.account_name ≡ some i
    → resolve accts (e ∷ es) ids ≡ resolve accts es (insert e.account_name i ids)
unfolding resolve
resolve-new accts e es ids gone there = rw (gone, there, resolve) refl

resolve-unknown :
    (accts : List Account) (e : Entry) (es : List Entry) (ids : Dict ℕ) {end : Dict ℕ}
    → lookup e.account_name ids ≡ none
    → account_id accts e.account_name ≡ none
    → ¬ (resolve accts (e ∷ es) ids ≡ ok end)
unfolding resolve
resolve-unknown accts e es ids gone nowhere done = ground arith

resolve-nil : (accts : List Account) (ids : Dict ℕ) → resolve accts [] ids ≡ ok ids
unfolding resolve
resolve-nil accts ids = refl

-- Each account of the entries is found.
pub resolve-Found :
    (accts : List Account) (es : List Entry) (ids : Dict ℕ) {end : Dict ℕ}
    → Found accts ids
    → resolve accts es ids ≡ ok end
    → Keeps ids end × Every (IsFound accts end) es
resolve-Found accts [] ids known done =
    let same = ok_injective (sym (resolve-nil accts ids) ∙ done) in
    (λ n i h. subst (λ (d : Dict ℕ). lookup n d ≡ some i) same h, tt)
resolve-Found accts (e ∷ es) ids {end} known done =
    let n = e.account_name in
    elim (Option-cases (lookup n ids)) [
      | inr (i, here) ↦
          let (keeps, rest) =
            resolve-Found accts es ids known (sym (resolve-known accts e es ids here) ∙ done) in
          (keeps, ((i, keeps n i here, known n i here), rest))
      | inl gone ↦ elim (Option-cases (account_id accts n)) [
        | inl nowhere ↦ absurd (resolve-unknown accts e es ids gone nowhere done)
        | inr (i, there) ↦
            let (keeps, rest) =
              resolve-Found accts es (insert n i ids) (Found-insert accts ids n i known there)
                (sym (resolve-new accts e es ids gone there) ∙ done) in
            (
              λ m j h. keeps m j (insert-keeps ids n i gone m j h),
              ((i, keeps n i (insert-here n i ids), there), rest),
            )
      ]
    ]
