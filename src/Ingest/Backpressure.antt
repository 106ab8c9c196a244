-- ===== src/Ingest/Backpressure.antt =====
-- The middleware of ledgerproof/ingest/app.py: `classify` and `backpressure`, up to `call_next`. What
-- the pressure function returns and what Redis answers are parameters; metrics are left out.
use ledger_proof.Base.{
  ℕ, ◌≤◌, String, Bool, true, not, Option, none, some, ◌≡◌, ◌≢◌, refl, ap, sym, ◌∙◌, arith,
  Bool-cases, inl, inr, str_eq, if◌then◌else◌,
}
use Prim.Native.String.{◌++◌ as joined}
use ledger_proof.Limits.Shed.{
  Tier, test_mode, get, post, critical, rank, LoadShedder, observe, should_shed,
}
use ledger_proof.Limits.Shed.Decide.{should_shed_iff}
use ledger_proof.Limits.Gcra.{Decision, GcraLimiter, Store, Answers, Checked, check}

pub record Request : Type 0 where
  pub synthetic : Bool
  pub method : String
  pub path : String
  pub client : String

unfoldable pub classify : Request → Tier
classify r =
    if r.synthetic
    then test_mode
    else if str_eq r.method "GET"
    then get
    else if str_eq r.path "/webhook"
    then critical
    else post

-- What answers the request: the middleware by 503 or 429, or the next handler.
pub data Passage : Type 0 where
  shedding : Tier → Passage
  rate_limited : Decision → Passage
  passed : Passage

-- The shedder and the limiter of the app, where it has them.
pub record Guards : Type 0 where
  pub shedder : Option LoadShedder
  pub limiter : Option GcraLimiter
  pub store : Store

abbrev observed : Option ℕ → LoadShedder → LoadShedder
observed none s = s
observed (some p) s = observe s p

abbrev tier_name : Tier → String
tier_name test_mode = "TEST_MODE"
tier_name get = "GET"
tier_name post = "POST"
tier_name critical = "CRITICAL"

-- `f"{tier.name}:{client}"`
abbrev limiter_key : Tier → String → String
limiter_key t client = joined (tier_name t) (joined ":" client)

module _ (drops : ℕ × ℕ → ℕ → Bool) where
  abbrev limited : GcraLimiter → Guards → Checked → Passage × Guards
  limited l g (d, l', m) =
      (if not d.allowed then rate_limited d else passed, record g { limiter = some l'; store = m })

  unfoldable pub limit : Guards → Option GcraLimiter → String → Answers → Passage × Guards
  limit g none key a = (passed, g)
  limit g (some l) key a = limited l g (check drops l g.store key a)

  unfoldable pub shed_first :
      Guards → Option LoadShedder → Option ℕ → Request → Answers → Passage × Guards
  shed_first g none pressure r a = limit g g.limiter (limiter_key (classify r) r.client) a
  shed_first g (some s) pressure r a =
      let decided = should_shed (observed pressure s) (classify r) in
      let g' : Guards = record g { shedder = some decided.1 } in
      if decided.0.shed
      then (shedding (classify r), g')
      else limit g' g.limiter (limiter_key (classify r) r.client) a

  unfoldable pub backpressure : Guards → Option ℕ → Request → Answers → Passage × Guards
  backpressure g pressure r a = shed_first g g.shedder pressure r a

  rank_top : (t : Tier) → rank t ≤ 3
  rank_top test_mode = omega arith
  rank_top get = omega arith
  rank_top post = omega arith
  rank_top critical = omega arith

  -- Where the money path is shed, whatever else arrives is shed too.
  shed_all :
      (s : LoadShedder) (t : Tier)
      → (should_shed s critical).0.shed ≡ true
      → (should_shed s t).0.shed ≡ true
  shed_all s t h =
      let (on, real, deep) = (should_shed_iff s critical).0 h in
      (should_shed_iff s t).1 (on, real, omega (arith, deep, rank_top t))

  shed_first_sheds :
      (g : Guards) (s : LoadShedder) (pressure : Option ℕ) (r : Request) (a : Answers)
      → (should_shed (observed pressure s) (classify r)).0.shed ≡ true
      → ((shed_first g (some s) pressure r a).0 ≡ shedding (classify r))
        × ((shed_first g (some s) pressure r a).1.store ≡ g.store)
  unfolding shed_first
  shed_first_sheds g s pressure r a sheds = (rw sheds refl, rw sheds refl)

  limit_sheds_none :
      (g : Guards) (l : Option GcraLimiter) (key : String) (a : Answers) (t : Tier)
      → (limit g l key a).0 ≢ shedding t
  unfolding limit
  limit_sheds_none g none key a t = λ e. cc
  limit_sheds_none g (some l) key a t = elim (Bool-cases (check drops l g.store key a).0.allowed) [
    | inl allowed ↦ rw allowed (λ e. cc)
    | inr denied ↦ rw denied (λ e. cc)
  ]

  shed_critical :
      (g : Guards) (s : LoadShedder) (pressure : Option ℕ) (r : Request) (a : Answers)
      → classify r ≡ critical
      → (shed_first g (some s) pressure r a).0 ≡ shedding critical
      → (should_shed (observed pressure s) critical).0.shed ≡ true
  unfolding shed_first
  shed_critical g s pressure r a money gone =
      elim (Bool-cases (should_shed (observed pressure s) (classify r)).0.shed) [
        | inl sheds ↦
            ap (λ (t : Tier). (should_shed (observed pressure s) t).0.shed) (sym money) ∙ sheds
        | inr stays ↦ absurd (limit_sheds_none _ g.limiter _ a critical (rw stays at gone))
      ]

  -- When the shedder of the app sheds a request of the money path, then it sheds any other request
  -- that arrives in that state with the same pressure, of whatever tier, and leaves the limiter's
  -- store as it was.
  pub webhook_shed_last :
      (g : Guards) (s : LoadShedder) (pressure : Option ℕ) (webhook other : Request) (a b : Answers)
      → g.shedder ≡ some s
      → classify webhook ≡ critical
      → (backpressure g pressure webhook a).0 ≡ shedding critical
      → ((backpressure g pressure other b).0 ≡ shedding (classify other))
        × ((backpressure g pressure other b).1.store ≡ g.store)
  unfolding backpressure shed_first
  webhook_shed_last g s pressure webhook other a b has money gone =
      let s' = observed pressure s in
      let first =
        ap (λ (x : Option LoadShedder). (shed_first g x pressure webhook a).0) (sym has) ∙ gone in
      let deep = shed_critical g s pressure webhook a money first in
      let all = shed_all s' (classify other) deep in
      let (answer, store) = shed_first_sheds g s pressure other b all in
      (
        ap (λ (x : Option LoadShedder). (shed_first g x pressure other b).0) has ∙ answer,
        ap (λ (x : Option LoadShedder). (shed_first g x pressure other b).1.store) has ∙ store,
      )
