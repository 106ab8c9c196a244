-- ===== src/Harness/Proxy/Live.antt =====
-- harness/proxy.py: `_live_plan`, and the status that the proxy answers. `json.loads` is a parameter.
pub mod Untouched
use Prim.Native.String.{◌++◌ as joined}
use ledger_proof.Base.{
  ℕ, suc, max, ◌/◌, String, Bool, true, false, not, Option, none, some, List, [], ◌∷◌, length, take,
  replicate, str_eq, if◌then◌else◌, Result, ok, err, ◌>>=◌,
}
use ledger_proof.Base.Int.{ℤ}
use ledger_proof.Base.Json.{Value, str, obj, Fields, get}
use ledger_proof.Stripe.Mapping.{Raised, type_error, value_error}
use ledger_proof.Stripe.Signature.{Text, sign}
use ledger_proof.Harness.Events.Serialize.{serialize}
use ledger_proof.Harness.Faults.{
  Fault, no_fault, duplicate, duplicate_object, concurrent_duplicate, reorder, delay, drop,
  respond_500, tamper_body, truncate_body, stale_timestamp, downgrade_scheme, partial_write,
  slow_loris,
}
use ledger_proof.Harness.Faults.Build.{with_id}
use ledger_proof.Harness.Proxy.{flip_byte, downgraded, backdated}

-- `_LivePlan`: each delivery is a body and a signature header.
pub record LivePlan : Type 0 where
  pub deliveries : List (Text × Text)
  pub delay_before_ms : ℕ
  pub slow_loris_ms : ℕ
  pub concurrent : Bool
  pub force_500 : Bool
  pub applied : Bool

-- The parameters of a fault, and the time that `_backdated` reads, less `age_s`.
pub record LiveParams : Type 0 where
  pub n : Option ℕ
  pub secret : Option Text
  pub delay_ms : Option ℕ
  pub hold_ms : Option ℕ
  pub stale : ℤ
  pub now : ℤ

abbrev pub given : Option ℕ → ℕ → ℕ
given none d = d
given (some k) d = k

abbrev pub sends : List (Text × Text) → Bool → LivePlan
sends deliveries applied = record {
  deliveries = deliveries;
  delay_before_ms = 0;
  slow_loris_ms = 0;
  concurrent = false;
  force_500 = false;
  applied = applied;
}

module _ (v1_digest : Text → Text → ℤ → Text) (loads : Text → Option Value) where
  -- `_event_id`
  unfoldable pub sent_id : Text → Option String
  unfolding get
  sent_id raw = elim (loads raw) [
    | some (obj event) ↦ elim (get event "id") [ some (str id) ↦ some id | _ ↦ none ]
    | _ ↦ none
  ]

  -- f"{_event_id(raw) or 'evt_unknown'}_dup"
  abbrev pub dup_id : Option String → String
  dup_id none = "evt_unknown_dup"
  dup_id (some id) = if str_eq id "" then "evt_unknown_dup" else joined id "_dup"

  -- The event that was parsed, under another id, and signed again.
  abbrev pub resigned : Text → String → ℤ → Option Value → Result Raised (Text × Text)
  resigned secret id now none = err value_error
  resigned secret id now (some (obj event)) =
      let body = serialize (with_id id event) in
      ok (body, sign v1_digest body secret now [] false none)
  resigned secret id now (some _) = err type_error

  -- `_reissued`
  unfoldable pub reissued : Text → Text → String → ℤ → Result Raised (Text × Text)
  reissued raw secret id now = resigned secret id now (loads raw)

  abbrev pub twice : LiveParams → Text → Text → Option Text → Result Raised LivePlan
  twice p raw sig none = ok (sends ((raw, sig) ∷ []) false)
  twice p raw sig (some []) = ok (sends ((raw, sig) ∷ []) false)
  twice p raw sig (some (c ∷ secret)) = do
    second ← reissued raw (c ∷ secret) (dup_id (sent_id raw)) p.now
    ok (sends ((raw, sig) ∷ second ∷ []) true)

  -- `_live_plan`
  unfoldable pub live_plan : Fault → LiveParams → Text → Text → Result Raised LivePlan
  live_plan no_fault p raw sig = ok (sends ((raw, sig) ∷ []) true)
  live_plan duplicate p raw sig = ok (sends (replicate (given p.n 3) (raw, sig)) true)
  live_plan concurrent_duplicate p raw sig =
      ok (record (sends (replicate (given p.n 8) (raw, sig)) true) { concurrent = true })
  live_plan duplicate_object p raw sig = twice p raw sig p.secret
  live_plan reorder p raw sig = ok (sends ((raw, sig) ∷ []) true)
  live_plan delay p raw sig =
      ok (record (sends ((raw, sig) ∷ []) true) { delay_before_ms = given p.delay_ms 1000 })
  live_plan drop p raw sig = ok (sends [] true)
  live_plan respond_500 p raw sig = ok (record (sends ((raw, sig) ∷ []) true) { force_500 = true })
  live_plan tamper_body p raw sig = ok (sends ((flip_byte raw, sig) ∷ []) true)
  live_plan truncate_body p raw sig =
      ok (sends ((take (max 1 (length raw / 2)) raw, sig) ∷ []) true)
  live_plan stale_timestamp p raw sig =
      let (header, applied) = backdated v1_digest sig raw p.stale p.secret in
      ok (sends ((raw, header) ∷ []) applied)
  live_plan downgrade_scheme p raw sig =
      let (header, applied) = downgraded sig in ok (sends ((raw, header) ∷ []) applied)
  live_plan slow_loris p raw sig =
      ok (record (sends ((raw, sig) ∷ []) true) { slow_loris_ms = given p.hold_ms 3000 })
  live_plan partial_write p raw sig = ok (sends ((raw, sig) ∷ []) false)

-- The status of the last forward, `none` where it failed, or that there was none.
abbrev pub last_status : List (Option ℕ) → Option (Option ℕ)
last_status [] = none
last_status (s ∷ []) = some s
last_status (s ∷ s' ∷ rest) = last_status (s' ∷ rest)

-- `upstream`
unfoldable pub upstream : LivePlan → List (Option ℕ) → ℕ
upstream plan results =
    if plan.force_500
    then 500
    else elim (last_status results) [ none ↦ 200 | some none ↦ 502 | some (some status) ↦ status ]
