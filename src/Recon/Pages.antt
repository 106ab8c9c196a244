-- ===== src/Recon/Pages.antt =====
-- ledgerproof/recon/reconciler.py: `_iter_balance_transactions`, which pages through a list of
-- Stripe's with a cursor. The server is a parameter: the page after a cursor.
pub mod Whole
use ledger_proof.Base.{
  ℕ, zero, suc, String, Bool, true, false, ◌||◌, not, Option, none, some, List, [], ◌∷◌, ◌++◌, any,
  str_eq, if◌then◌else◌,
}
use ledger_proof.Base.Json.{Value, str, Fields, get, as_str}

-- One answer: `data`, or the empty list where it is missing, and the truth of `has_more`.
pub record Page : Type 0 where
  pub data_ : List Fields
  pub has_more : Bool

-- `data[-1].get("id")`, where it is a text
unfoldable pub last_id : List Fields → Option String
unfolding get
last_id [] = none
last_id (bt ∷ []) = elim (get bt "id") [ some (str s) ↦ some s | _ ↦ none ]
last_id (bt ∷ bt' ∷ bts) = last_id (bt' ∷ bts)

-- Where the next page starts, or none where this was the last: no more, no data, no cursor, or one
-- that does not advance.
unfoldable pub next_cursor : Page → List String → Option String
next_cursor page seen = elim (last_id page.data_) [
  | none ↦ none
  | some cursor ↦ if not page.has_more || any (str_eq cursor) seen then none else some cursor
]

module _ (server : Option String → Page) where
  -- `while True`, on fuel; `none` means that fuel ran out.
  unfoldable pub pages : ℕ → Option String → List String → Option (List Fields)
  pages zero cursor seen = none
  pages (suc fuel) cursor seen = elim (next_cursor (server cursor) seen) [
    | none ↦ some (server cursor).data_
    | some next ↦ elim (pages fuel (some next) (next ∷ seen)) [
      | none ↦ none
      | some rest ↦ some ((server cursor).data_ ++ rest)
    ]
  ]
