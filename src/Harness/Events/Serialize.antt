-- ===== src/Harness/Events/Serialize.antt =====
-- harness/events.py: `serialize`, that is `json.dumps` with separators (",", ":") over JSON values.
-- It escapes every character outside ASCII, so the bytes are the codes of the text.
use ledger_proof.Base.{
  ◌&&◌, ℕ, ◌+◌, ◌-◌, ◌/◌, ◌%◌, String, true, false, [], ◌∷◌, ◌++◌, ltb, leb, ◌==◌, if◌then◌else◌,
}
use ledger_proof.Base.Text.{codes, int_text}
use ledger_proof.Base.Json.{
  Value, null, bool, num, str, arr, obj, Fields, end, field, Items, nil, cons,
}
use ledger_proof.Stripe.Signature.{Text}

hex_digit : ℕ → ℕ
hex_digit n = if ltb n 10 then b'0' + n else b'a' + (n - 10)

-- `\uXXXX`
unicode_escape : ℕ → Text
unfolding hex_digit
unicode_escape n =
    b'\\'
    ∷ b'u'
    ∷ hex_digit (n / 4096 % 16)
    ∷ hex_digit (n / 256 % 16)
    ∷ hex_digit (n / 16 % 16)
    ∷ hex_digit (n % 16)
    ∷ []

-- A character beyond the basic plane is a pair of surrogates.
escaped : ℕ → Text
unfolding unicode_escape
escaped c =
    if c == b'"'
    then b'\\' ∷ b'"' ∷ []
    else if c == b'\\'
    then b'\\' ∷ b'\\' ∷ []
    else if c == 10
    then b'\\' ∷ b'n' ∷ []
    else if c == 13
    then b'\\' ∷ b'r' ∷ []
    else if c == 9
    then b'\\' ∷ b't' ∷ []
    else if c == 8
    then b'\\' ∷ b'b' ∷ []
    else if c == 12
    then b'\\' ∷ b'f' ∷ []
    else if leb 32 c && leb c 126
    then c ∷ []
    else if ltb c 65536
    then unicode_escape c
    else unicode_escape (55296 + (c - 65536) / 1024) ++ unicode_escape (56320 + (c - 65536) % 1024)

escape_all : Text → Text
unfolding escaped
escape_all [] = []
escape_all (c ∷ cs) = escaped c ++ escape_all cs

quoted : String → Text
unfolding escape_all
quoted s = b'"' ∷ escape_all (codes s) ++ b'"' ∷ []

unfoldable mutual
  unfolding quoted

  pub dumps : Value → Text
  dumps null = b'n' ∷ b'u' ∷ b'l' ∷ b'l' ∷ []
  dumps (bool true) = b't' ∷ b'r' ∷ b'u' ∷ b'e' ∷ []
  dumps (bool false) = b'f' ∷ b'a' ∷ b'l' ∷ b's' ∷ b'e' ∷ []
  dumps (num n) = int_text n
  dumps (str s) = quoted s
  dumps (obj fs) = b'{' ∷ dump_fields fs
  dumps (arr xs) = b'[' ∷ dump_items xs

  -- The members, with the closing brace.
  dump_fields : Fields → Text
  dump_fields end = b'}' ∷ []
  dump_fields (field k v end) = quoted k ++ b':' ∷ dumps v ++ b'}' ∷ []
  dump_fields (field k v (field k' v' fs)) =
      quoted k ++ b':' ∷ dumps v ++ b',' ∷ dump_fields (field k' v' fs)

  dump_items : Items → Text
  dump_items nil = b']' ∷ []
  dump_items (cons v nil) = dumps v ++ b']' ∷ []
  dump_items (cons v (cons w xs)) = dumps v ++ b',' ∷ dump_items (cons w xs)

-- `serialize`
unfoldable pub serialize : Fields → Text
unfolding dumps
serialize event = dumps (obj event)
