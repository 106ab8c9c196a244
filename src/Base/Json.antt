-- ===== src/Base/Json.antt =====
-- JSON values as `json.loads` returns them, and what Python's operators do with them. Numbers are
-- integers: an amount in Stripe's minor units is never written as a float.
use Prim.Native.String.{String}
use mathlib.Core.Bool.{Bool, true, false}
use mathlib.Core.Option.{Option, none, some}
use mathlib.Core.List.{List, [], ◌∷◌}
use text.Mathlib.Text.{◌==◌ as str_eq}
use ledger_proof.Base.Tests.{if◌then◌else◌}
use ledger_proof.Base.Int.{ℤ, pos, ◌==ℤ◌}

mutual
  -- The members of an object, in the order of the text.
  pub data Fields : Type 0 where
    end : Fields
    field : String → Value → Fields → Fields

  pub data Value : Type 0 where
    null : Value
    bool : Bool → Value
    num : ℤ → Value
    str : String → Value
    obj : Fields → Value
    arr : Items → Value

  pub data Items : Type 0 where
    nil : Items
    cons : Value → Items → Items

-- `d.get(k)`; a key that is there with the value None gives `null`, a missing one `none`.
unfoldable pub get : Fields → String → Option Value
get end k = none
get (field j v fs) k = if str_eq j k then some v else get fs k

abbrev pub as_obj : Value → Option Fields
as_obj (obj fs) = some fs
as_obj _ = none

abbrev pub as_str : Value → Option String
as_str (str s) = some s
as_str _ = none

-- Truth of a value, as `or` and `if` test it.
abbrev pub truthy : Value → Bool
truthy null = false
truthy (bool b) = b
truthy (num n) = elim (n ==ℤ pos 0) [ true ↦ false | false ↦ true ]
truthy (str s) = elim (str_eq s "") [ true ↦ false | false ↦ true ]
truthy (arr nil) = false
truthy (arr (cons x xs)) = true
truthy (obj end) = false
truthy (obj (field k v fs)) = true

-- `{k: v, ..}` and `[v, ..]`
abbrev pub dict : List (String × Value) → Fields
dict [] = end
dict ((k, v) ∷ rest) = field k v (dict rest)

abbrev pub array : List Value → Items
array [] = nil
array (v ∷ rest) = cons v (array rest)
