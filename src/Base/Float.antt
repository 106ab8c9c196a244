-- ===== src/Base/Float.antt =====
-- Python's floats that are neither negative nor infinite, as whole numbers of the least of them,
-- 2 ^ -1074: a result is rounded to the nearest number of 53 bits, and to the even one of two.
-- Results of 2 ^ 1024 and above, which overflow to inf, are not represented.
use Prim.Native.Nat.{ℕ, zero, suc, ◌+◌, ◌-◌, ◌*◌, ◌/◌, ◌%◌, ◌^◌, ◌≤◌, ◌<◌, max}
use mathlib.Core.Path.{◌≡◌, refl}
use mathlib.Core.Bool.{true, false}
use mathlib.Core.Logic.{◌⊎◌, inl, inr}
use native.Mathlib.Omega.{arith}
use native.Mathlib.Nat.{mod-add-div', mod-lt, div-lt_iff_lt-mul}
use ledger_proof.Base.Tests.{ltb, if◌then◌else◌, Bool-cases}

-- 1.0
abbrev pub one : ℕ
one = 2 ^ 1074

-- The distance of the numbers of 53 bits about `n`, on `n` rounds of fuel.
spacing_loop : ℕ → ℕ → ℕ
spacing_loop zero n = 1
spacing_loop (suc fuel) n = elim (ltb n 9007199254740992) [
  | true ↦ 1
  | false ↦ 2 * spacing_loop fuel (n / 2)
]

-- The whole number that is nearest to n / d, the even one of two.
nearest : ℕ → ℕ → ℕ
nearest n d =
    if ltb (2 * (n % d)) d
    then n / d
    else if ltb d (2 * (n % d))
    then n / d + 1
    else n / d + n / d % 2

-- n / d, rounded.
unfoldable pub rounded : ℕ → ℕ → ℕ
unfolding nearest spacing_loop
rounded n d = let p = spacing_loop (n / d) (n / d) in nearest n (d * p) * p

-- `a + b`, `a - b` for a not below b, `a * b` for a whole number b, `a * b` and `a / b`.
abbrev pub add : ℕ → ℕ → ℕ
add a b = rounded (a + b) 1

abbrev pub sub : ℕ → ℕ → ℕ
sub a b = rounded (a - b) 1

abbrev pub times : ℕ → ℕ → ℕ
times a n = rounded (a * n) 1

abbrev pub mul : ℕ → ℕ → ℕ
mul a b = rounded (a * b) one

abbrev pub div : ℕ → ℕ → ℕ
div a b = rounded (a * one) b

spacing_loop-pos : (fuel n : ℕ) → 1 ≤ spacing_loop fuel n
unfolding spacing_loop
spacing_loop-pos zero n = omega arith
spacing_loop-pos (suc fuel) n = elim (Bool-cases (ltb n 9007199254740992)) [
  | inl small ↦ rw (small, spacing_loop) (omega arith)
  | inr big ↦ rw (big, spacing_loop) (omega (arith, spacing_loop-pos fuel (n / 2)))
]

-- The spacing is at most one part in 2 ^ 52 of the number.
spacing_loop-le : (fuel n : ℕ) → spacing_loop fuel n * 4503599627370496 ≤ max n 4503599627370496
unfolding spacing_loop
spacing_loop-le zero n = omega arith
spacing_loop-le (suc fuel) n = elim (Bool-cases (ltb n 9007199254740992)) [
  | inl small ↦ rw (small, spacing_loop) (omega arith)
  | inr big ↦
      rw (big, spacing_loop)
        (let wide : 9007199254740992 ≤ n = ground arith in
          omega (arith, wide, spacing_loop-le fuel (n / 2)))
]

-- What `nearest` is between.
nearest-le : (n d : ℕ) → (n / d ≤ nearest n d) × (nearest n d ≤ n / d + 1)
unfolding nearest
nearest-le n d = (ground arith, ground arith)

scale_le : (a b t : ℕ) → a ≤ b → a * t ≤ b * t
scale_le a b t h = grind arith

mul-pos : (a b : ℕ) → 0 < a → 0 < b → 0 < a * b
mul-pos a b h g = grind arith

-- The multiple m of p that is nearest to n / d, where q is the whole part of n / (d * p).
within :
    (n d p q m r : ℕ)
    → r + q * (d * p) ≡ n
    → r < d * p
    → q ≤ m
    → m ≤ q + 1
    → (n ≤ (m * p + p) * d) × (m * p * d ≤ n + p * d)
within n d p q m r whole part low high =
    let under = scale_le q m (d * p) low in
    let over = scale_le m (q + 1) (d * p) high in
    (omega (arith, whole, part, under), omega (arith, whole, part, over))

-- A rounded quotient is within a spacing of the exact one.
rounded-near_spacing :
    (n d : ℕ)
    → 0 < d
    → (e : ℕ) × (n ≤ (rounded n d + e) * d)
      × (rounded n d * d ≤ n + e * d)
      × (e * 4503599627370496 ≤ max (n / d) 4503599627370496)
      × (n / d ≤ rounded n d + e)
unfolding rounded
rounded-near_spacing n d some' =
    let p = spacing_loop (n / d) (n / d) in
    let q = n / (d * p) in
    let m = nearest n (d * p) in
    let (low, high) = nearest-le n (d * p) in
    let wide = mul-pos d p some' (spacing_loop-pos (n / d) (n / d)) in
    let (up, down) =
      within n d p q m (n % (d * p)) (mod-add-div' n (d * p)) (mod-lt n wide) low high in
    let next : n < (m * p + p + 1) * d = omega (arith, up, some') in
    let whole : n / d ≤ m * p + p = omega (arith, (div-lt_iff_lt-mul some').1 next) in
    (p, up, down, spacing_loop-le (n / d) (n / d), whole)

-- Where the numbers are such that their spacing is at most e.
pub rounded-near :
    (n d e : ℕ)
    → 0 < d
    → 1 ≤ e
    → (2 * rounded n d ≤ e * 4503599627370496) ⊎ (n ≤ e * 4503599627370496 * d)
    → (n ≤ (rounded n d + e) * d) × (rounded n d * d ≤ n + e * d)
rounded-near n d e some' whole range =
    let (p, up, down, narrow, near) = rounded-near_spacing n d some' in
    let fits : p ≤ e = elim range [
      | inl out ↦ omega (arith, out, narrow, near, whole)
      | inr into ↦
          let most : n < (e * 4503599627370496 + 1) * d = omega (arith, into, some') in
          omega (arith, narrow, whole, (div-lt_iff_lt-mul some').1 most)
    ] in
    let wide = scale_le p e d fits in (omega (arith, up, wide), omega (arith, down, wide))

-- For a sum or a difference.
pub rounded-near_one :
    (n e : ℕ)
    → 1 ≤ e
    → (2 * rounded n 1 ≤ e * 4503599627370496) ⊎ (n ≤ e * 4503599627370496)
    → (n ≤ rounded n 1 + e) × (rounded n 1 ≤ n + e)
rounded-near_one n e whole range =
    let wide : (2 * rounded n 1 ≤ e * 4503599627370496) ⊎ (n ≤ e * 4503599627370496 * 1) =
      elim range [ inl out ↦ inl out | inr into ↦ inr (omega (arith, into)) ] in
    let (up, down) = rounded-near n 1 e (omega arith) whole wide in
    (omega (arith, up), omega (arith, down))

-- 0.1, as Python has it.
tenth :
    div one (times one 10)
    ≡ 20240225330731062958807743960839173035771409219554670346925747641684641915737541925025262154524732028946691051478781323139692622934787833054137395084177741572448183924369913497496024679618604611012849275635362753437969198873755325100252100205308964846037946531406109226174033240187414252888919866362827531551747834260750336
unfolding rounded
tenth = refl
