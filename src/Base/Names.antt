-- ===== src/Base/Names.antt =====
-- Lists of texts: membership as Python's `in` tests it, lists without repetition, and counting.
use ledger_proof.Base.{
  ℕ, ◌+◌, ◌≤◌, String, Bool, true, false, ◌||◌, not, List, [], ◌∷◌, any, keep, length, str_eq,
  if◌then◌else◌, ◌≡◌, refl, sym, ap, ◌∙◌, subst, arith, Every, Bool-cases, inl, inr, eq_iff,
  eq_refl,
}

-- `name in names`
abbrev pub among : List String → String → Bool
among names name = any (str_eq name) names

-- How often an id stands in a list.
abbrev pub times : String → List String → ℕ
times id [] = 0
times id (other ∷ ids) = (if str_eq id other then 1 else 0) + times id ids

-- Ids that differ from one another.
abbrev pub Apart : List String → Type 0
Apart [] = Unit
Apart (id ∷ ids) = (among ids id ≡ false) × Apart ids

abbrev pub others : String → List String → List String
others id ids = keep (λ other. not (str_eq id other)) ids

pub others-own :
    (id other : String) (ids : List String)
    → str_eq id other ≡ true
    → others id (other ∷ ids) ≡ others id ids
others-own id other ids same = rw (same, keep) refl

pub others-past :
    (id other : String) (ids : List String)
    → str_eq id other ≡ false
    → others id (other ∷ ids) ≡ other ∷ others id ids
others-past id other ids differ = rw (differ, keep) refl

pub among-others_own : (id : String) (ids : List String) → among (others id ids) id ≡ false
among-others_own id [] = refl
among-others_own id (other ∷ ids) = elim (Bool-cases (str_eq id other)) [
  | inl same ↦ rw (others-own id other ids same) (among-others_own id ids)
  | inr differ ↦
      rw (others-past id other ids differ) (ground (arith, differ, among-others_own id ids))
]

pub among-others :
    (id k : String) (ids : List String)
    → str_eq id k ≡ false
    → among (others id ids) k ≡ among ids k
among-others id k [] apart = refl
among-others id k (other ∷ ids) apart = elim (Bool-cases (str_eq id other)) [
  | inl same ↦
      rw (others-own id other ids same)
        (ground (arith, among-others id k ids apart, eq_iff id other, eq_iff k other, eq_iff id k))
  | inr differ ↦
      ap (λ (l : List String). among l k) (others-past id other ids differ)
      ∙ ap (λ (b : Bool). str_eq k other || b) (among-others id k ids apart)
]

times-others :
    (id k : String) (ids : List String)
    → str_eq id k ≡ false
    → times k (others id ids) ≡ times k ids
times-others id k [] apart = refl
times-others id k (other ∷ ids) apart = elim (Bool-cases (str_eq id other)) [
  | inl same ↦
      rw (others-own id other ids same)
        (ground (arith, times-others id k ids apart, eq_iff id other, eq_iff k other, eq_iff id k))
  | inr differ ↦
      ap (λ (l : List String). times k l) (others-past id other ids differ)
      ∙ ap (λ (n : ℕ). (if str_eq k other then 1 else 0) + n) (times-others id k ids apart)
]

length-others :
    (id : String) (ids : List String) → length ids ≡ times id ids + length (others id ids)
length-others id [] = omega arith
length-others id (other ∷ ids) = elim (Bool-cases (str_eq id other)) [
  | inl same ↦ rw (others-own id other ids same) (ground (arith, same, length-others id ids))
  | inr differ ↦ rw (others-past id other ids differ) (ground (arith, differ, length-others id ids))
]

pub times-among : (id : String) (rows : List String) → among rows id ≡ true → 1 ≤ times id rows
times-among id [] h = cc
times-among id (other ∷ rows) h = elim (Bool-cases (str_eq id other)) [
  | inl same ↦ rw same (omega arith)
  | inr differ ↦ rw differ (omega (arith, times-among id rows (ground (arith, differ))))
]

-- Rows that name every one of the ids are as many at least, and if they are no more, each id is
-- named once.
pub pigeonhole :
    (ids rows : List String)
    → Apart ids
    → Every (λ id. among rows id ≡ true) ids
    → (length ids ≤ length rows) × (length rows ≤ length ids → Every (λ id. times id rows ≡ 1) ids)
pigeonhole [] rows apart named = (omega arith, λ few. tt)
pigeonhole (id ∷ ids) rows apart named =
    let (enough, once) = pigeonhole ids (others id rows) apart.1 (still ids apart.0 named.1) in
    let some_own = times-among id rows named.0 in
    let sizes = length-others id rows in
    (
      omega (arith, enough, some_own, sizes),
      λ few. (
        omega (arith, enough, some_own, sizes, few),
        back ids apart.0 (once (omega (arith, enough, some_own, sizes, few))),
      ),
    )
  where
    still :
        (ks : List String)
        → among ks id ≡ false
        → Every (λ k. among rows k ≡ true) ks
        → Every (λ k. among (others id rows) k ≡ true) ks
    still [] fresh h = tt
    still (k ∷ ks) fresh h =
        (among-others id k rows (ground (arith, fresh)) ∙ h.0, still ks (ground (arith, fresh)) h.1)

    back :
        (ks : List String)
        → among ks id ≡ false
        → Every (λ k. times k (others id rows) ≡ 1) ks
        → Every (λ k. times k rows ≡ 1) ks
    back [] fresh h = tt
    back (k ∷ ks) fresh h = (
      sym (times-others id k rows (ground (arith, fresh))) ∙ h.0,
      back ks (ground (arith, fresh)) h.1,
    )

pub times-absent : (id : String) (rows : List String) → among rows id ≡ false → times id rows ≡ 0
times-absent id [] h = refl
times-absent id (other ∷ rows) h = ground (arith, h, times-absent id rows)

-- A predicate of every id is one of each that is among them.
pub Every-among :
    (P : String → Type 0) (id : String) (ids : List String)
    → Every P ids
    → among ids id ≡ true
    → P id
Every-among P id [] each here = cc
Every-among P id (other ∷ ids) each here = elim (Bool-cases (str_eq id other)) [
  | inl same ↦ let it : other ≡ id = ground (arith, eq_iff id other, same) in subst P it each.0
  | inr differ ↦ Every-among P id ids each.1 (ground (arith, differ))
]

pub among-Every :
    (P : String → Type 0) (ids : List String)
    → ((id : String) → among ids id ≡ true → P id)
    → Every P ids
among-Every P [] each = tt
among-Every P (id ∷ ids) each = (
  each id (rw (eq_refl id) refl),
  among-Every P ids (λ k h. each k (rw h (or_true (str_eq k id)))),
)
  where
    or_true : (b : Bool) → (b || true) ≡ true
    or_true b = ground arith
