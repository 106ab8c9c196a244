-- ===== src/Recon/Pages/Whole.antt =====
-- That the loop over pages in ledgerproof/recon/reconciler.py ends, and what it yields.
use ledger_proof.Base.{
  ℕ, zero, suc, ◌<◌, ◌≤◌, String, Bool, true, false, not, Option, none, some, List, [], ◌∷◌, ◌++◌,
  append-nil, any, keep, length, str_eq, ◌≡◌, refl, sym, inl, inr, arith, Option-cases, eq_iff,
  str_cases,
}
use ledger_proof.Base.Json.{Fields}
use ledger_proof.Recon.Pages.{Page, last_id, next_cursor, pages}

abbrev unseen : List String → String → Bool
unseen seen id = not (any (str_eq id) seen)

-- The cursors that a server can answer with, less those that were seen.
left : List String → List String → ℕ
left ids seen = length (keep (unseen seen) ids)

left-le : (ids seen : List String) (c : String) → left ids (c ∷ seen) ≤ left ids seen
unfolding left
left-le [] seen c = omega arith
left-le (i ∷ ids) seen c = ground (arith, left-le ids seen c)

left-length : (ids seen : List String) → left ids seen ≤ length ids
unfolding left
left-length [] seen = omega arith
left-length (i ∷ ids) seen = ground (arith, left-length ids seen)

-- A new cursor leaves fewer.
left-lt :
    (ids seen : List String) (c : String)
    → any (str_eq c) ids ≡ true
    → any (str_eq c) seen ≡ false
    → left ids (c ∷ seen) < left ids seen
unfolding left
left-lt [] seen c here new = cc
left-lt (i ∷ ids) seen c here new = elim (str_cases c i) [
  | inl same ↦ ground (arith, left-le ids seen c, eq_iff i c, rw same at new, sym same)
  | inr other ↦ ground (arith, left-lt ids seen c, eq_iff c i, eq_iff i c)
]

next_cursor-inv :
    (page : Page) (seen : List String) {c : String}
    → next_cursor page seen ≡ some c
    → (last_id page.data_ ≡ some c) × (page.has_more ≡ true) × (any (str_eq c) seen ≡ false)
unfolding next_cursor
next_cursor-inv page seen h = ground arith

module _ (server : Option String → Page) where
  pages-end :
      (fuel : ℕ) (cursor : Option String) (seen : List String)
      → next_cursor (server cursor) seen ≡ none
      → pages server (suc fuel) cursor seen ≡ some (server cursor).data_
  unfolding pages
  pages-end fuel cursor seen h = rw (h, pages) refl

  pages-more :
      (fuel : ℕ) (cursor : Option String) (seen : List String) {next : String} {rest : List Fields}
      → next_cursor (server cursor) seen ≡ some next
      → pages server fuel (some next) (next ∷ seen) ≡ some rest
      → pages server (suc fuel) cursor seen ≡ some ((server cursor).data_ ++ rest)
  unfolding pages
  pages-more fuel cursor seen h k = rw (h, pages) (rw k refl)

  module _ (ids : List String)
      (answers : (cursor : Option String) (c : String)
        → last_id (server cursor).data_ ≡ some c
        → any (str_eq c) ids ≡ true) where
    pages-Ends :
        (fuel : ℕ) (cursor : Option String) (seen : List String)
        → left ids seen < fuel
        → (bts : List Fields) × (pages server fuel cursor seen ≡ some bts)
    pages-Ends zero cursor seen h = absurd (omega (arith, h))
    pages-Ends (suc fuel) cursor seen h = elim (Option-cases (next_cursor (server cursor) seen)) [
      | inl last ↦ ((server cursor).data_, pages-end fuel cursor seen last)
      | inr (c, more) ↦
          let (own, _, new) = next_cursor-inv (server cursor) seen more in
          let fewer = left-lt ids seen c (answers cursor c own) new in
          let (rest, done) = pages-Ends fuel (some c) (c ∷ seen) (omega (arith, fewer, h)) in
          ((server cursor).data_ ++ rest, pages-more fuel cursor seen more done)
    ]

    -- The loop over the pages ends, whatever the server answers, if the ids that its pages end with
    -- are among finitely many: one round more than these are enough.
    pub pagination_ends : (bts : List Fields) × (pages server (suc (length ids)) none [] ≡ some bts)
    pagination_ends = pages-Ends (suc (length ids)) none [] (omega (arith, left-length ids []))

-- The server answers with these pages, each but the last with more to come and with a new cursor.
pub data Serves (server : Option String → Page)
    : List String → Option String → List (List Fields) → Type 0 where
  last_page :
      {seen : List String} {cursor : Option String}
      → (server cursor).has_more ≡ false
      → Serves server seen cursor ((server cursor).data_ ∷ [])
  page_before :
      {seen : List String} {cursor : Option String} {next : String} {rest : List (List Fields)}
      → (server cursor).has_more ≡ true
      → last_id (server cursor).data_ ≡ some next
      → any (str_eq next) seen ≡ false
      → Serves server (next ∷ seen) (some next) rest
      → Serves server seen cursor ((server cursor).data_ ∷ rest)

unfoldable pub all_items : List (List Fields) → List Fields
all_items [] = []
all_items (page ∷ rest) = page ++ all_items rest

no_next : (page : Page) (seen : List String) → page.has_more ≡ false → next_cursor page seen ≡ none
unfolding next_cursor
no_next page seen h = ground arith

goes_on :
    (page : Page) (seen : List String) {next : String}
    → page.has_more ≡ true
    → last_id page.data_ ≡ some next
    → any (str_eq next) seen ≡ false
    → next_cursor page seen ≡ some next
unfolding next_cursor
goes_on page seen more own new = ground arith

-- Where the server answers with pages that each have more to come and a cursor that was not
-- seen, but for the last, the loop reads every page once, in that many rounds, and yields all
-- their items in order.
pub pages-Whole :
    (server : Option String → Page) (seen : List String) (cursor : Option String)
    (chunks : List (List Fields))
    → Serves server seen cursor chunks
    → pages server (length chunks) cursor seen ≡ some (all_items chunks)
unfolding all_items
pages-Whole server seen cursor _ (last_page done) =
    rw (append-nil (server cursor).data_)
      (pages-end server 0 cursor seen (no_next (server cursor) seen done))
pages-Whole server seen cursor _ (page_before {next} {rest} more own new later) =
    pages-more server (length rest) cursor seen (goes_on (server cursor) seen more own new)
      (pages-Whole server (next ∷ seen) (some next) rest later)
