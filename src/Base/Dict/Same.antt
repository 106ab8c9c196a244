-- ===== src/Base/Dict/Same.antt =====
-- Equality of dicts with whole numbers as values, and the dicts without repeated keys.
use ledger_proof.Base.{
  ℕ, String, Bool, true, false, ◌&&◌, ◌||◌, Option, none, some, List, [], ◌∷◌, all, length, str_eq,
  ◌==◌, ◌≡◌, refl, sym, ap, ◌∙◌, arith, Bool-cases, Option-cases, inl, inr, eq_iff, &&-split,
}
use ledger_proof.Base.Int.{ℤ, ◌==ℤ◌, ==ℤ_iff}
use ledger_proof.Base.Dict.{Dict, lookup, insert}
use ledger_proof.Base.Names.{among, Apart, pigeonhole, among-Every}

-- `a == b` of dicts, whose keys are distinct.
abbrev is_value : ℤ → Option ℤ → Bool
is_value v none = false
is_value v (some held) = held ==ℤ v

abbrev holds_item : Dict ℤ → String × ℤ → Bool
holds_item b kv = is_value kv.1 (lookup kv.0 b)

unfoldable pub same_dict : Dict ℤ → Dict ℤ → Bool
same_dict a b = (length a == length b) && all (holds_item b) a

abbrev pub keys {ℓ} : {V : Type ℓ} → Dict V → List String
keys [] = []
keys ((k, v) ∷ d) = k ∷ keys d

-- No key is repeated, as in every dict.
abbrev pub IsDict {ℓ} : {V : Type ℓ} → Dict V → Type 0
IsDict d = Apart (keys d)

pub lookup-absent {ℓ} :
    {V : Type ℓ} (n : String) (d : Dict V) → among (keys d) n ≡ false → lookup n d ≡ none
unfolding lookup
lookup-absent n [] h = refl
lookup-absent n ((k, v) ∷ d) h = ground (arith, h, lookup-absent n d)

pub lookup-present {ℓ} :
    {V : Type ℓ} (n : String) (d : Dict V)
    → among (keys d) n ≡ true
    → (v : V) × (lookup n d ≡ some v)
unfolding lookup
lookup-present n [] h = cc
lookup-present n ((k, v) ∷ d) h = elim (Bool-cases (str_eq n k)) [
  | inl own ↦ (v, rw own refl)
  | inr past ↦ let (w, found) = lookup-present n d (ground (arith, past, h)) in (w, rw past found)
]

among-insert {ℓ} :
    {V : Type ℓ} (n k : String) (v : V) (d : Dict V)
    → among (keys (insert k v d)) n ≡ (str_eq n k || among (keys d) n)
unfolding insert
among-insert n k v [] = refl
among-insert n k v ((j, w) ∷ d) = elim (Bool-cases (str_eq k j)) [
  | inl own ↦ rw own (ground (arith, eq_iff k j, eq_iff n k, eq_iff n j))
  | inr past ↦ rw past (ground (arith, among-insert n k v d))
]

pub insert-IsDict {ℓ} :
    {V : Type ℓ} (k : String) (v : V) (d : Dict V) → IsDict d → IsDict (insert k v d)
unfolding insert
insert-IsDict k v [] h = (refl, tt)
insert-IsDict k v ((j, w) ∷ d) h = elim (Bool-cases (str_eq k j)) [
  | inl own ↦ rw own h
  | inr past ↦ rw past (
    among-insert j k v d ∙ ground (arith, h.0, eq_iff j k, eq_iff k j, past),
    insert-IsDict k v d h.1,
  )
]

is_value-some : (v : ℤ) (o : Option ℤ) → is_value v o ≡ true → o ≡ some v
is_value-some v none h = cc
is_value-some v (some held) h = ap (λ (x : ℤ). some x) ((==ℤ_iff held v).0 h)

-- The items of one dict are those of the other.
all-holds_item :
    (a b : Dict ℤ) (n : String) {v : ℤ}
    → all (holds_item b) a ≡ true
    → lookup n a ≡ some v
    → lookup n b ≡ some v
unfolding lookup
all-holds_item [] b n h found = cc
all-holds_item ((k, w) ∷ a) b n {v} h found =
    let (own, rest) = &&-split (holds_item b (k, w)) (all (holds_item b) a) h in
    elim (Bool-cases (str_eq n k)) [
      | inl here ↦
          let same : n ≡ k = ground (arith, eq_iff n k, here) in
          ap (λ (x : String). lookup x b) same
          ∙ is_value-some w (lookup k b) own
          ∙ (rw here at found)
      | inr past ↦ all-holds_item a b n rest (rw past at found)
    ]

length-keys {ℓ} : {V : Type ℓ} (d : Dict V) → length (keys d) ≡ length d
length-keys [] = refl
length-keys ((k, v) ∷ d) = omega (arith, length-keys d)

-- Equal dicts have the same value, or none, under every key.
pub same_dict-lookup :
    (a b : Dict ℤ) (n : String)
    → IsDict a
    → IsDict b
    → same_dict a b ≡ true
    → lookup n a ≡ lookup n b
unfolding same_dict
same_dict-lookup a b n da db same =
    let (sizes, items) = &&-split (length a == length b) (all (holds_item b) a) same in
    elim (Option-cases (lookup n a)) [
      | inr (v, found) ↦ found ∙ sym (all-holds_item a b n items found)
      | inl gone ↦ elim (Bool-cases (among (keys b) n)) [
        | inr absent ↦ gone ∙ sym (lookup-absent n b absent)
        | inl there ↦
            let (more, _) =
              pigeonhole (n ∷ keys a) (keys b) (missing a n gone, da)
                (there, among-Every (λ k. among (keys b) k ≡ true) (keys a) (held items)) in
            absurd (
              omega
                (arith, more, length-keys a, length-keys b, same_size (length a) (length b) sizes))
      ]
    ]
  where
    same_size : (m k : ℕ) → (m == k) ≡ true → m ≡ k
    same_size m k h = ground arith

    held :
        all (holds_item b) a ≡ true
        → (k : String) → among (keys a) k ≡ true
        → among (keys b) k ≡ true
    held items k here =
        let (v, found) = lookup-present k a here in
        elim (Bool-cases (among (keys b) k)) [
          | inl there ↦ there
          | inr absent ↦
              let own = all-holds_item a b k items found in
              absurd (let it = sym own ∙ lookup-absent k b absent in cc)
        ]

    missing : (d : Dict ℤ) (k : String) → lookup k d ≡ none → among (keys d) k ≡ false
    missing d k gone = elim (Bool-cases (among (keys d) k)) [
      | inr absent ↦ absent
      | inl there ↦
          let (v, found) = lookup-present k d there in absurd (let it = sym gone ∙ found in cc)
    ]
