-- ===== src/Harness/Proxy/Tests.antt =====
-- The reordering buffer of harness/proxy.py at concrete deliveries.
use ledger_proof.Base.{◌<◌, max, length, [], ◌∷◌, ◌≡◌}
use ledger_proof.Harness.Proxy.Reorderer.{submit, forward, at_rest, run}
use ledger_proof.Harness.Proxy.Reorderer.Kept.{places, submitted, reorderer_keeps}

reorderer_keeps_example :
    (places 7 (run 2 (submit 7 ∷ submit 8 ∷ forward 0 ∷ []) at_rest)
      ≡ submitted 7 (submit 7 ∷ submit 8 ∷ forward 0 ∷ []))
    × (length (run 2 (submit 7 ∷ submit 8 ∷ forward 0 ∷ []) at_rest).buffer < max 1 2)
reorderer_keeps_example = reorderer_keeps 2 7 (submit 7 ∷ submit 8 ∷ forward 0 ∷ [])
