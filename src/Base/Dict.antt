-- ===== src/Base/Dict.antt =====
-- A Python dict keyed by text, as an association list in insertion order.
pub mod Same
use Prim.Native.String.{String}
use mathlib.Core.Path.{◌≡◌, refl}
use mathlib.Core.Option.{Option, none, some}
use mathlib.Core.List.{List, [], ◌∷◌}
use native.Mathlib.Omega.{arith}
use text.Mathlib.Text.{◌==◌ as str_eq}
use text.Mathlib.TextEquality.{eq_iff}
use ledger_proof.Base.Tests.{if◌then◌else◌}

abbrev pub Dict {ℓ} : Type ℓ → Type ℓ
Dict V = List (String × V)

module _ {ℓ} {Value : Type ℓ} where
  -- `d.get(key)`
  unfoldable pub lookup : String → Dict Value → Option Value
  lookup key [] = none
  lookup key ((own, held) ∷ rest) = if str_eq key own then some held else lookup key rest

  -- `d[key] = new`: in place when the key is there, at the end when it is not.
  unfoldable pub insert : String → Value → Dict Value → Dict Value
  insert key new [] = (key, new) ∷ []
  insert key new ((own, held) ∷ rest) =
      if str_eq key own then (own, new) ∷ rest else (own, held) ∷ insert key new rest

  pub lookup-insert :
      (key other : String) (new : Value) (d : Dict Value)
      → lookup other (insert key new d) ≡ (if str_eq other key then some new else lookup other d)
  unfolding lookup insert
  lookup-insert key other new [] = refl
  lookup-insert key other new ((own, held) ∷ rest) =
      ground (
        arith,
        lookup-insert key other new rest,
        eq_iff other key,
        eq_iff key own,
        eq_iff other own,
      )
