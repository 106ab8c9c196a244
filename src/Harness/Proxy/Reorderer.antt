-- ===== src/Harness/Proxy/Reorderer.antt =====
-- `_Reorderer` of harness/proxy.py: deliveries are held back and released in reverse order. A delivery
-- is the number of its `_Pending`. The lock makes `submit` up to its first forward one turn; what
-- comes after a wait is a turn of its own, in any order with those of the other requests. The second
-- wait for a flush that claimed the delivery is left out, since it forwards nothing.
pub mod Kept
pub mod Reversed
use mathlib.Core.List.{reverse}
use ledger_proof.Base.{
  ℕ, zero, suc, Bool, true, false, Option, none, some, List, [], ◌∷◌, ◌++◌, any, length, leb, ◌==◌,
  if◌then◌else◌,
}

-- The buffer, what each flush has still to forward, and the calls of `forward` in their order.
pub record Reorderer : Type 0 where
  pub buffer : List ℕ
  pub flushes : List (List ℕ)
  pub forwarded : List ℕ

pub data Turn : Type 0 where
  -- A request, up to the first forward or to its wait.
  submit : ℕ → Turn
  -- The wait of a request ends by its timeout.
  time_out : ℕ → Turn
  -- One flush forwards its next delivery.
  forward : ℕ → Turn

abbrev pub at_rest : Reorderer
at_rest = record { buffer = []; flushes = []; forwarded = [] }

-- `self._buffer.remove(pending)`
unfoldable pub remove : ℕ → List ℕ → List ℕ
remove k [] = []
remove k (j ∷ js) = let rest = remove k js in if k == j then js else j ∷ rest

unfoldable pub next_of : ℕ → List (List ℕ) → List ℕ × List (List ℕ)
next_of i [] = ([], [])
next_of zero ([] ∷ flushes) = ([], [] ∷ flushes)
next_of zero ((k ∷ ks) ∷ flushes) = (k ∷ [], ks ∷ flushes)
next_of (suc i) (flush ∷ flushes) = let (sent, rest) = next_of i flushes in (sent, flush ∷ rest)

unfoldable pub take_turn : ℕ → Turn → Reorderer → Reorderer
take_turn n (submit k) r =
    let held = r.buffer ++ k ∷ [] in
    if leb n (length held)
    then record r { buffer = []; flushes = r.flushes ++ reverse held ∷ [] }
    else record r { buffer = held }
take_turn n (time_out k) r =
    if any (◌==◌ k) r.buffer
    then record r { buffer = remove k r.buffer; flushes = r.flushes ++ (k ∷ []) ∷ [] }
    else r
take_turn n (forward i) r =
    let (sent, rest) = next_of i r.flushes in
    record r { flushes = rest; forwarded = r.forwarded ++ sent }

-- The turns, the first first.
unfoldable pub run : ℕ → List Turn → Reorderer → Reorderer
run n [] r = r
run n (s ∷ turns) r = run n turns (take_turn n s r)
