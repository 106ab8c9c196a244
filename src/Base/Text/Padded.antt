-- ===== src/Base/Text/Padded.antt =====
-- Numbers of one width in digits are the same text only where they are the same number.
use Prim.Native.Char.{code}
use Prim.Native.Nat.{ℕ, zero, suc, ◌+◌, ◌-◌, ◌≤◌}
use Prim.Native.String.{String}
use mathlib.Core.Path.{◌≡◌, refl, sym, ap, ◌∙◌}
use mathlib.Core.Bool.{true}
use mathlib.Core.List.{List, [], ◌∷◌, ◌++◌}
use native.Mathlib.Omega.{arith}
use ledger_proof.Base.Lists.{all, length, replicate}
use ledger_proof.Base.Tests.{&&-split}
use ledger_proof.Base.Text.{is_digit, codes, decimal, nth_char, digit_text, padded}
use ledger_proof.Base.Text.Decimal.{read, read-append, all-append, decimal-digits, read-decimal}

code-nth_char : (n : ℕ) → n ≤ 9 → code (nth_char "0123456789" n "0") ≡ b'0' + n
unfolding nth_char
code-nth_char zero h = refl
code-nth_char (suc zero) h = refl
code-nth_char (suc (suc zero)) h = refl
code-nth_char (suc (suc (suc zero))) h = refl
code-nth_char (suc (suc (suc (suc zero)))) h = refl
code-nth_char (suc (suc (suc (suc (suc zero))))) h = refl
code-nth_char (suc (suc (suc (suc (suc (suc zero)))))) h = refl
code-nth_char (suc (suc (suc (suc (suc (suc (suc zero))))))) h = refl
code-nth_char (suc (suc (suc (suc (suc (suc (suc (suc zero)))))))) h = refl
code-nth_char (suc (suc (suc (suc (suc (suc (suc (suc (suc zero))))))))) h = refl
code-nth_char (suc (suc (suc (suc (suc (suc (suc (suc (suc (suc n)))))))))) h = omega (arith, h)

codes-digit_text : (cs : List ℕ) → all is_digit cs ≡ true → codes (digit_text cs) ≡ cs
unfolding digit_text
codes-digit_text [] h = refl
codes-digit_text (c ∷ cs) h =
    let (own, rest) = &&-split (is_digit c) (all is_digit cs) h in
    let small : c - b'0' ≤ 9 = ground arith in
    let back : b'0' + (c - b'0') ≡ c = ground arith in
    rw (code-nth_char (c - b'0') small ∙ back, codes-digit_text cs rest) refl

zeros-digits : (n : ℕ) → all is_digit (replicate n b'0') ≡ true
zeros-digits zero = refl
zeros-digits (suc n) = zeros-digits n

read-zeros : (n : ℕ) → read 0 (replicate n b'0') ≡ 0
unfolding read
read-zeros zero = refl
read-zeros (suc n) = read-zeros n

read-padded : (width n : ℕ) → read 0 (codes (padded width n)) ≡ n
unfolding padded
read-padded width n =
    let ds = decimal n in
    let zeros = replicate (width - length ds) b'0' in
    let digits : all is_digit (zeros ++ ds) ≡ true =
      all-append is_digit zeros ds ∙ rw (zeros-digits (width - length ds), decimal-digits n) refl in
    ap (read 0) (codes-digit_text (zeros ++ ds) digits)
    ∙ read-append 0 zeros ds
    ∙ ap (λ (k : ℕ). read k ds) (read-zeros (width - length ds))
    ∙ read-decimal n

pub padded-injective : (width a b : ℕ) → padded width a ≡ padded width b → a ≡ b
padded-injective width a b same =
    sym (read-padded width a) ∙ ap (λ (s : String). read 0 (codes s)) same ∙ read-padded width b
