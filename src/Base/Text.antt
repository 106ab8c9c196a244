-- ===== src/Base/Text.antt =====
-- What the program uses of Python's text: `str.upper`, `str.strip` and `int(str)`, over the code
-- points below 256 (an HTTP header is decoded as Latin-1, and Stripe's own texts are ASCII).
pub mod Decimal
pub mod Padded
use Prim.Native.Char.{Char, code}
use Prim.Native.Nat.{ℕ, zero, suc, ◌+◌, ◌-◌, ◌*◌, ◌/◌, ◌%◌}
use Prim.Native.String.{String}
use mathlib.Core.Bool.{Bool, true, false, ◌&&◌, ◌||◌}
use mathlib.Core.Option.{Option, none, some}
use mathlib.Core.List.{List, [], ◌∷◌, ◌++◌, reverse}
use ledger_proof.Base.Lists.{length, replicate}
use ledger_proof.Base.Tests.{leb, ltb, ◌==◌, if◌then◌else◌}
use ledger_proof.Base.Int.{ℤ, pos, negsuc, neg}

-- The code points of a text.
abbrev pub codes : String → List ℕ
codes String.[] = []
codes (String.◌∷◌ c s) = code c ∷ codes s

nth_char : String → ℕ → Char → Char
nth_char String.[] i default = default
nth_char (String.◌∷◌ c s) zero default = c
nth_char (String.◌∷◌ c s) (suc i) default = nth_char s i default

upper_char : Char → Char
unfolding nth_char
upper_char c =
    if leb b'a' (code c) && leb (code c) b'z'
    then nth_char "ABCDEFGHIJKLMNOPQRSTUVWXYZ" (code c - b'a') c
    else c

-- `s.upper()`, of ASCII
unfoldable pub upper : String → String
unfolding upper_char
upper String.[] = ""
upper (String.◌∷◌ c s) = String.◌∷◌ (upper_char c) (upper s)

-- What `str.strip` and `int` take for white space.
abbrev pub is_space : ℕ → Bool
is_space c = (leb 9 c && leb c 13) || (leb 28 c && leb c 32) || c == 133 || c == 160

unfoldable pub lstrip : List ℕ → List ℕ
lstrip [] = []
lstrip (c ∷ cs) = elim (is_space c) [ true ↦ lstrip cs | false ↦ c ∷ cs ]

unfoldable pub strip : List ℕ → List ℕ
unfolding lstrip
strip cs = reverse (lstrip (reverse (lstrip cs)))

abbrev pub is_digit : ℕ → Bool
is_digit c = leb b'0' c && leb c b'9'

-- Decimal digits, with single underscores between them; `after` says that a digit came just before.
unfoldable pub int_digits : ℕ → Bool → List ℕ → Option ℕ
int_digits n after [] = if after then some n else none
int_digits n after (c ∷ cs) = elim (is_digit c) [
  | true ↦ int_digits (n * 10 + (c - b'0')) true cs
  | false ↦ elim (c == b'_' && after) [ true ↦ int_digits n false cs | false ↦ none ]
]

with_sign : (ℕ → ℤ) → Option ℕ → Option ℤ
with_sign f none = none
with_sign f (some n) = some (f n)

signed_digits : List ℕ → Option ℤ
unfolding int_digits with_sign
signed_digits [] = none
signed_digits (c ∷ cs) =
    if c == b'-'
    then with_sign (λ n. neg (pos n)) (int_digits 0 false cs)
    else if c == b'+'
    then with_sign pos (int_digits 0 false cs)
    else with_sign pos (int_digits 0 false (c ∷ cs))

-- `int(s)`: `none` is ValueError
unfoldable pub int_of_text : List ℕ → Option ℤ
unfolding signed_digits strip
int_of_text cs = signed_digits (strip cs)

-- `str(n)`: the decimal digits of a number, on `n` rounds of fuel.
decimal_loop : ℕ → ℕ → List ℕ
decimal_loop zero n = (b'0' + n) ∷ []
decimal_loop (suc fuel) n =
    let rest = decimal_loop fuel (n / 10) in
    if ltb n 10 then (b'0' + n) ∷ [] else rest ++ (b'0' + n % 10) ∷ []

unfoldable pub decimal : ℕ → List ℕ
unfolding decimal_loop
decimal n = decimal_loop n n

-- `str(n)` of an integer
unfoldable pub int_text : ℤ → List ℕ
unfolding decimal
int_text (pos n) = decimal n
int_text (negsuc n) = b'-' ∷ decimal (suc n)

digit_text : List ℕ → String
unfolding nth_char
digit_text [] = ""
digit_text (c ∷ cs) = String.◌∷◌ (nth_char "0123456789" (c - b'0') "0") (digit_text cs)

-- f"{n:0{width}d}"
unfoldable pub padded : ℕ → ℕ → String
unfolding decimal digit_text
padded width n =
    let digits = decimal n in digit_text (replicate (width - length digits) b'0' ++ digits)
