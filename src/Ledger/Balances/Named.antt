-- ===== src/Ledger/Balances/Named.antt =====
-- The account that a name finds in ledger/post.py, among accounts with UNIQUE names and ids.
use mathlib.Core.List.{Memᴰ}
use mathlib.Core.List.Memᴰ.{cases_cons}
use ledger_proof.Base.{
  ℕ, String, Bool, true, false, ◌||◌, some, List, [], ◌∷◌, any, str_eq, ◌==◌, ◌≡◌, refl, sym, ap,
  subst, ◌∙◌, inl, inr, arith, Bool-cases, eq_iff,
}
use ledger_proof.Ledger.Schema.{Account}
use ledger_proof.Ledger.Post.{account_id}
use ledger_proof.Ledger.Invariant.Conservation.{UniqueIds}

-- Accounts with different ids have different names: UNIQUE (name).
abbrev pub UniqueNames : List Account → Type 0
UniqueNames [] = Unit
UniqueNames (a ∷ accts) =
    (any (λ (b : Account). str_eq b.name a.name) accts ≡ false) × UniqueNames accts

any-Memᴰ :
    (p : Account → Bool) (a : Account) (accts : List Account)
    → Memᴰ a accts
    → any p accts ≡ false
    → p a ≡ false
any-Memᴰ p a [] m h = elim m [ ]
any-Memᴰ p a (b ∷ accts) m h = elim (cases_cons m) [
  | inl same ↦ ap p same ∙ ground (arith, h)
  | inr later ↦ any-Memᴰ p a accts later (ground (arith, h))
]

account_id-listed :
    (accts : List Account) (n : String) {i : ℕ}
    → account_id accts n ≡ some i
    → any (λ (b : Account). b.id == i) accts ≡ true
unfolding account_id
account_id-listed [] n h = cc
account_id-listed (b ∷ accts) n {i} h = elim (Bool-cases (str_eq b.name n)) [
  | inl here ↦
      let own : b.id ≡ i = some_injective (rw (here, account_id) at h) in ground (arith, own)
  | inr past ↦ rw (account_id-listed accts n (rw (past, account_id) at h)) (or_true (b.id == i))
]
  where
    some_injective : {x y : ℕ} → some x ≡ some y → x ≡ y
    some_injective same = cc

    or_true : (b : Bool) → (b || true) ≡ true
    or_true true = refl
    or_true false = refl

other_than :
    (i : ℕ) (b : Account) (accts : List Account)
    → any (λ (c : Account). c.id == b.id) accts ≡ false
    → any (λ (c : Account). c.id == i) accts ≡ true
    → (b.id == i) ≡ false
other_than i b accts unique listed = elim (Bool-cases (b.id == i)) [
  | inr apart ↦ apart
  | inl same ↦
      let is : i ≡ b.id = ground (arith, same) in
      let it =
        sym unique ∙ subst (λ (k : ℕ). any (λ (c : Account). c.id == k) accts ≡ true) is listed in
      absurd (let it2 = it in cc)
]

-- An account is the one that its name finds, and no other.
pub account_id-of :
    (accts : List Account) (a : Account) (n : String) (i : ℕ)
    → UniqueIds accts
    → UniqueNames accts
    → Memᴰ a accts
    → account_id accts n ≡ some i
    → (a.id == i) ≡ str_eq n a.name
unfolding account_id
account_id-of [] a n i ids names m found = elim m [ ]
account_id-of (b ∷ accts) a n i ids names m found = elim (Bool-cases (str_eq b.name n)) [
  | inl here ↦
      let own : b.id ≡ i = some_injective (rw (here, account_id) at found) in
      let name : b.name ≡ n = (eq_iff b.name n).0 here in
      elim (cases_cons m) [
        | inl same ↦ ground (
          arith,
          ap (λ (x : Account). x.id) same,
          ap (λ (x : Account). x.name) same,
          own,
          name,
          eq_iff n a.name,
        )
        | inr later ↦
            let other_id = any-Memᴰ (λ (c : Account). c.id == b.id) a accts later ids.0 in
            let other_name =
              any-Memᴰ (λ (c : Account). str_eq c.name b.name) a accts later names.0 in
            ground (arith, other_id, other_name, own, name, eq_iff n a.name, eq_iff a.name b.name)
      ]
  | inr past ↦
      let found' = rw (past, account_id) at found in
      elim (cases_cons m) [
        | inl same ↦
            let listed = account_id-listed accts n found' in
            let apart = other_than i b accts ids.0 listed in
            ground (
              arith,
              ap (λ (x : Account). x.id) same,
              ap (λ (x : Account). x.name) same,
              apart,
              eq_iff n a.name,
              eq_iff b.name n,
            )
        | inr later ↦ account_id-of accts a n i ids.1 names.1 later found'
      ]
]
  where
    some_injective : {x y : ℕ} → some x ≡ some y → x ≡ y
    some_injective same = cc
