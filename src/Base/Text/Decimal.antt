-- ===== src/Base/Text/Decimal.antt =====
-- Python's `int(str(n))` gives `n` back.
use ledger_proof.Base.Int.{ℤ, pos, negsuc, neg}
use Prim.Native.Nat.{ℕ, zero, suc, ◌+◌, ◌-◌, ◌*◌, ◌/◌, ◌%◌, ◌≤◌}
use mathlib.Core.Path.{◌≡◌, refl, ap, ◌∙◌}
use mathlib.Core.Logic.{◌≢◌, inl, inr}
use mathlib.Core.Bool.{Bool, true, false, ◌&&◌, ◌||◌, not}
use mathlib.Core.Option.{some}
use mathlib.Core.List.{List, [], ◌∷◌, ◌++◌, reverse, reverse_aux, append-nil}
use native.Mathlib.Omega.{arith}
use ledger_proof.Base.Lists.{all}
use ledger_proof.Base.Tests.{ltb, ◌==◌, Bool-cases, &&-split}
use ledger_proof.Base.Text.{
  is_space, is_digit, lstrip, strip, int_digits, signed_digits, int_of_text, decimal_loop, decimal,
  int_text, with_sign,
}

all-reverse_aux : (p : ℕ → Bool) (xs r : List ℕ) → all p (reverse_aux xs r) ≡ (all p xs && all p r)
all-reverse_aux p [] r = refl
all-reverse_aux p (x ∷ xs) r = ground (arith, all-reverse_aux p xs (x ∷ r))

reverse_aux-twice : (xs r s : List ℕ) → reverse_aux (reverse_aux xs r) s ≡ reverse_aux r (xs ++ s)
reverse_aux-twice [] r s = refl
reverse_aux-twice (x ∷ xs) r s = reverse_aux-twice xs (x ∷ r) s

pub no_space : (c : ℕ) → is_digit c ≡ true → is_space c ≡ false
no_space c h = ground arith

abbrev plain : ℕ → Bool
plain c = not (is_space c)

lstrip-plain : (cs : List ℕ) → all plain cs ≡ true → lstrip cs ≡ cs
unfolding lstrip
lstrip-plain [] h = refl
lstrip-plain (c ∷ cs) h =
    let none_here : is_space c ≡ false = ground arith in rw (none_here, lstrip) refl

strip-plain : (cs : List ℕ) → all plain cs ≡ true → strip cs ≡ cs
unfolding strip
strip-plain cs h =
    let back : all plain (reverse cs) ≡ true = all-reverse_aux plain cs [] ∙ rw h refl in
    rw (lstrip-plain cs h, lstrip-plain (reverse cs) back)
      (reverse_aux-twice cs [] [] ∙ append-nil cs)

digits-plain : (cs : List ℕ) → all is_digit cs ≡ true → all plain cs ≡ true
digits-plain [] h = refl
digits-plain (c ∷ cs) h =
    let (own, rest) = &&-split (is_digit c) (all is_digit cs) h in
    rw (no_space c own) (digits-plain cs rest)

-- The number that digits write after `n`.
unfoldable pub read : ℕ → List ℕ → ℕ
read n [] = n
read n (c ∷ cs) = read (n * 10 + (c - b'0')) cs

pub read-append : (n : ℕ) (cs ds : List ℕ) → read n (cs ++ ds) ≡ read (read n cs) ds
unfolding read
read-append n [] ds = refl
read-append n (c ∷ cs) ds = read-append (n * 10 + (c - b'0')) cs ds

int_digits-read :
    (n : ℕ) (cs : List ℕ) → all is_digit cs ≡ true → int_digits n true cs ≡ some (read n cs)
unfolding int_digits read
int_digits-read n [] h = refl
int_digits-read n (c ∷ cs) h =
    let (own, rest) = &&-split (is_digit c) (all is_digit cs) h in
    rw (own, int_digits) (int_digits-read (n * 10 + (c - b'0')) cs rest)

pub all-append : (p : ℕ → Bool) (xs ys : List ℕ) → all p (xs ++ ys) ≡ (all p xs && all p ys)
all-append p [] ys = refl
all-append p (x ∷ xs) ys = ground (arith, all-append p xs ys)

tenth : (n fuel : ℕ) → n ≤ suc fuel → n / 10 ≤ fuel
tenth n fuel h = omega (arith, h)

digit : (n : ℕ) → n ≤ 9 → is_digit (b'0' + n) ≡ true
digit n h = ground arith

small : (n : ℕ) → ltb n 10 ≡ true → n ≤ 9
small n h = ground arith

last_digit : (n : ℕ) → n % 10 ≤ 9
last_digit n = omega arith

decimal_loop-digits : (fuel n : ℕ) → n ≤ fuel → all is_digit (decimal_loop fuel n) ≡ true
unfolding decimal_loop
decimal_loop-digits zero n h = rw (digit n (omega (arith, h))) refl
decimal_loop-digits (suc fuel) n h = elim (Bool-cases (ltb n 10)) [
  | inl one ↦ rw one (rw (digit n (small n one)) refl)
  | inr more ↦ rw more (
      all-append is_digit (decimal_loop fuel (n / 10)) ((b'0' + n % 10) ∷ [])
      ∙ rw (decimal_loop-digits fuel (n / 10) (tenth n fuel h), digit (n % 10) (last_digit n)) refl)
]

read-decimal_loop : (fuel n : ℕ) → n ≤ fuel → read 0 (decimal_loop fuel n) ≡ n
unfolding decimal_loop read
read-decimal_loop zero n h = omega arith
read-decimal_loop (suc fuel) n h = elim (Bool-cases (ltb n 10)) [
  | inl one ↦ rw one (omega arith)
  | inr more ↦ rw more (
      read-append 0 (decimal_loop fuel (n / 10)) ((b'0' + n % 10) ∷ [])
      ∙ rw (read-decimal_loop fuel (n / 10) (tenth n fuel h)) (omega arith))
]

pub decimal-digits : (n : ℕ) → all is_digit (decimal n) ≡ true
unfolding decimal
decimal-digits n = decimal_loop-digits n n (omega arith)

pub read-decimal : (n : ℕ) → read 0 (decimal n) ≡ n
unfolding decimal
read-decimal n = read-decimal_loop n n (omega arith)

not_empty : (xs : List ℕ) (x : ℕ) → xs ++ x ∷ [] ≢ []
not_empty [] x h = cc
not_empty (y ∷ xs) x h = cc

decimal_loop-some : (fuel n : ℕ) → decimal_loop fuel n ≢ []
unfolding decimal_loop
decimal_loop-some zero n h = cc
decimal_loop-some (suc fuel) n h = elim (Bool-cases (ltb n 10)) [
  | inl one ↦ not_empty [] (b'0' + n) (rw (one, decimal_loop) at h)
  | inr more ↦ not_empty (decimal_loop fuel (n / 10)) (b'0' + n % 10) (rw (more, decimal_loop) at h)
]

int_digits-first :
    (cs : List ℕ) → all is_digit cs ≡ true → cs ≢ [] → int_digits 0 false cs ≡ some (read 0 cs)
unfolding int_digits read
int_digits-first [] h some' = absurd (some' refl)
int_digits-first (c ∷ cs) h some' =
    let (own, rest) = &&-split (is_digit c) (all is_digit cs) h in
    rw (own, int_digits) (int_digits-read (0 * 10 + (c - b'0')) cs rest)

-- Digits that begin with a digit have no sign.
signed_digits-read :
    (cs : List ℕ) → all is_digit cs ≡ true → cs ≢ [] → signed_digits cs ≡ some (pos (read 0 cs))
unfolding signed_digits with_sign
signed_digits-read [] h some' = absurd (some' refl)
signed_digits-read (c ∷ cs) h some' =
    let (own, _) = &&-split (is_digit c) (all is_digit cs) h in
    let minus : (c == b'-') ≡ false = ground arith in
    let plus : (c == b'+') ≡ false = ground arith in
    rw (minus, plus, int_digits-first (c ∷ cs) h some') refl

signed_digits-minus :
    (cs : List ℕ)
    → all is_digit cs ≡ true
    → cs ≢ []
    → signed_digits (b'-' ∷ cs) ≡ some (neg (pos (read 0 cs)))
unfolding signed_digits with_sign
signed_digits-minus cs h some' = rw (int_digits-first cs h some') refl

neg-suc : (n : ℕ) → neg (pos (suc n)) ≡ negsuc n
unfolding neg
neg-suc n = ground arith

pub int_text-round_trip : (n : ℤ) → int_of_text (int_text n) ≡ some n
unfolding int_of_text int_text decimal
int_text-round_trip (pos n) =
    let digits = decimal_loop-digits n n (omega arith) in
    let all_plain = digits-plain (decimal_loop n n) digits in
    ap signed_digits (strip-plain (decimal_loop n n) all_plain)
    ∙ signed_digits-read (decimal_loop n n) digits (decimal_loop-some n n)
    ∙ ap (λ (k : ℕ). some (pos k)) (read-decimal_loop n n (omega arith))
int_text-round_trip (negsuc n) =
    let ds = decimal_loop (suc n) (suc n) in
    let digits = decimal_loop-digits (suc n) (suc n) (omega arith) in
    let all_plain = digits-plain ds digits in
    ap signed_digits (strip-plain (b'-' ∷ ds) all_plain)
    ∙ signed_digits-minus ds digits (decimal_loop-some (suc n) (suc n))
    ∙ ap (λ (k : ℕ). some (neg (pos k))) (read-decimal_loop (suc n) (suc n) (omega arith))
    ∙ ap (λ (k : ℤ). some k) (neg-suc n)

-- What the text of an integer is made of.
abbrev pub is_sign_or_digit : ℕ → Bool
is_sign_or_digit c = is_digit c || c == b'-'

signed_chars : (cs : List ℕ) → all is_digit cs ≡ true → all is_sign_or_digit cs ≡ true
signed_chars [] h = refl
signed_chars (c ∷ cs) h =
    let (own, rest) = &&-split (is_digit c) (all is_digit cs) h in
    rw (own, signed_chars cs rest) refl

pub int_text-chars : (n : ℤ) → all is_sign_or_digit (int_text n) ≡ true
unfolding int_text decimal
int_text-chars (pos n) = signed_chars (decimal_loop n n) (decimal_loop-digits n n (omega arith))
int_text-chars (negsuc n) =
    signed_chars (decimal_loop (suc n) (suc n)) (decimal_loop-digits (suc n) (suc n) (omega arith))
