-- ===== src/Limits/Gcra.antt =====
-- ledgerproof/limits/gcra.py. Times are floats (Base/Float), in seconds. Redis is a parameter: what it
-- answers in a call is an `Answers`, and `drops t e` tells whether it has dropped, when its clock is at
-- `t`, a key that was set to expire at `e` milliseconds.
pub mod Lock
pub mod Bound
pub mod Expiry
pub mod Window
use ledger_proof.Base.{
  ℕ, ◌+◌, ◌-◌, ◌*◌, ◌/◌, max, Bool, true, false, ◌||◌, not, String, str_eq, Option, none, some,
  Result, ok, err, ◌>>=◌, ltb, leb, if◌then◌else◌,
}
use ledger_proof.Base.Float.{one, add, sub, times, div}

-- `none` is an infinite retry_after_s.
pub record Decision : Type 0 where
  pub allowed : Bool
  pub limit : ℕ
  pub remaining : ℕ
  pub retry_after : Option ℕ
  pub reason : String

-- OverflowError, of `int` at an infinite float.
pub data Overflow : Type 0 where
  overflow_error : Overflow

-- `str(max(1, int(self.retry_after_s + 0.999)))`, as a number
abbrev retry_header : Option ℕ → Result Overflow ℕ
retry_header none = err overflow_error
retry_header (some wait) = ok (max 1 (add wait (div (times one 999) (times one 1000)) / one))

-- `RateLimit-Limit`, `RateLimit-Remaining` and, on a denial, `Retry-After`.
unfoldable pub headers : Decision → Result Overflow (ℕ × ℕ × Option ℕ)
headers d =
    if d.allowed
    then ok (d.limit, d.remaining, none)
    else retry_header d.retry_after >>= λ n. ok (d.limit, d.remaining, some n)

pub record GcraLimiter : Type 0 where
  pub rate : ℕ
  pub period : ℕ
  pub burst : ℕ
  pub emission_interval : ℕ
  pub tolerance : ℕ
  pub fail_open : Bool
  pub fail_open_count : ℕ
  pub fail_closed_count : ℕ

-- `__init__`, with the message of its ValueError.
unfoldable pub new_limiter : ℕ → ℕ → ℕ → Bool → Result String GcraLimiter
new_limiter rate period burst fail_open =
    if leb rate 0 || leb period 0
    then err "rate and period must be positive"
    else if ltb burst 1
    then err "burst must be at least 1 (1 = no burst allowance)"
    else ok (record {
      rate = rate;
      period = period;
      burst = burst;
      emission_interval = div period (times one rate);
      tolerance = times (div period (times one rate)) (burst - 1);
      fail_open = fail_open;
      fail_open_count = 0;
      fail_closed_count = 0;
    })

-- What a key of Redis holds: the text of a float (negative ones, -inf among them, are alike here), or
-- one that `float` refuses.
pub data Raw : Type 0 where
  stamp : ℕ → Raw
  negative not_a_number infinite corrupt : Raw

-- `expires_at` in milliseconds of Redis's clock.
pub record Cell : Type 0 where
  pub raw : Raw
  pub expires_at : ℕ

abbrev pub Store : Type 0
Store = String → Option Cell

unfoldable pub write : Store → String → Option Cell → Store
write m key v k = if str_eq key k then v else m k

-- How `_acquire` ends.
pub data LockOutcome : Type 0 where
  acquired lock_unavailable lock_error : LockOutcome

-- What Redis answers during a check: to TIME (`none` is a RedisError), to GET and to SET.
pub record Answers : Type 0 where
  pub lock : LockOutcome
  pub time : Option (ℕ × ℕ)
  pub get_fails : Bool
  pub set_fails : Bool

-- Redis's clock, in microseconds.
abbrev pub clock : ℕ × ℕ → ℕ
clock (seconds, microseconds) = seconds * 1000000 + microseconds

-- `_now`
unfoldable pub now_at : ℕ × ℕ → ℕ
now_at (seconds, microseconds) =
    add (times one seconds) (div (times one microseconds) (times one 1000000))

-- `_remaining`; the floor division of two floats is that of the numbers that they stand for.
unfoldable pub remaining_after : GcraLimiter → ℕ → ℕ → ℕ
remaining_after l now tat =
    if leb l.emission_interval 0
    then l.burst
    else sub (add l.tolerance l.emission_interval) (sub tat now) / l.emission_interval

abbrev denied : GcraLimiter → Option ℕ → String → Decision
denied l retry_after reason = record {
  allowed = false;
  limit = l.rate;
  remaining = 0;
  retry_after = retry_after;
  reason = reason;
}

abbrev pub Checked : Type 0
Checked = Decision × GcraLimiter × Store

unfoldable pub fail_open_decision : GcraLimiter → Store → Checked
fail_open_decision l m =
    if not l.fail_open
    then (denied l (some l.emission_interval) "limiter_error_fail_closed", l, m)
    else (
      record {
        allowed = true;
        limit = l.rate;
        remaining = l.rate;
        retry_after = some 0;
        reason = "limiter_error_fail_open";
      },
      record l { fail_open_count = l.fail_open_count + 1 },
      m,
    )

-- `ttl_s`, and the `px` of the SET: milliseconds, cut down to whole ones, and a second more.
unfoldable pub ttl_of : GcraLimiter → ℕ → ℕ → ℕ
ttl_of l now new_tat = max (add (sub new_tat now) l.tolerance) l.emission_interval

unfoldable pub px_of : GcraLimiter → ℕ → ℕ → ℕ
px_of l now new_tat = times (ttl_of l now new_tat) 1000 / one + 1000

-- From `allow_at = ...` to the end, the TAT known, at the time `t` of Redis. An `allow_at` below 0,
-- where no time is, is 0.
unfoldable pub conform : GcraLimiter → Store → String → Bool → ℕ × ℕ → ℕ → Checked
conform l m key set_fails t tat =
    let now = now_at t in
    let allow_at = sub tat l.tolerance in
    let new_tat = add (max now tat) l.emission_interval in
    if ltb now allow_at
    then (denied l (some (sub allow_at now)) "rate_limited", l, m)
    else if set_fails
    then fail_open_decision l m
    else (
      record {
        allowed = true;
        limit = l.rate;
        remaining = remaining_after l now new_tat;
        retry_after = some 0;
        reason = "";
      },
      l,
      write m key (
          some (record { raw = stamp new_tat; expires_at = clock t / 1000 + px_of l now new_tat })),
    )

module _ (drops : ℕ × ℕ → ℕ → Bool) where
  -- GET, at the time `t`.
  unfoldable pub read : Store → String → ℕ × ℕ → Option Raw
  read m key t = elim (m key) [
    | none ↦ none
    | some c ↦ if drops t c.expires_at then none else some c.raw
  ]

  -- `float(raw) if raw is not None else now`, and what follows. Of a negative TAT and of nan the
  -- comparison with `now` is false and `max` gives `now`, as of 0.
  unfoldable pub with_raw : GcraLimiter → Store → String → Bool → ℕ × ℕ → Option Raw → Checked
  with_raw l m key set_fails t none = conform l m key set_fails t (now_at t)
  with_raw l m key set_fails t (some (stamp tat)) = conform l m key set_fails t tat
  with_raw l m key set_fails t (some negative) = conform l m key set_fails t 0
  with_raw l m key set_fails t (some not_a_number) = conform l m key set_fails t 0
  with_raw l m key set_fails t (some infinite) = (denied l none "rate_limited", l, m)
  with_raw l m key set_fails t (some corrupt) = fail_open_decision l m

  -- `check`, the lock being held.
  unfoldable pub locked_check : GcraLimiter → Store → String → Answers → Option (ℕ × ℕ) → Checked
  locked_check l m key a none = fail_open_decision l m
  locked_check l m key a (some t) =
      if a.get_fails then fail_open_decision l m else with_raw l m key a.set_fails t (read m key t)

  unfoldable pub check : GcraLimiter → Store → String → Answers → Checked
  check l m key a = elim a.lock [
    | acquired ↦ locked_check l m key a a.time
    | lock_unavailable ↦ (
      denied l (some l.emission_interval) "lock_contended",
      record l { fail_closed_count = l.fail_closed_count + 1 },
      m,
    )
    | lock_error ↦ fail_open_decision l m
  ]

unfoldable pub reset : Store → String → Store
reset m key = write m key none
