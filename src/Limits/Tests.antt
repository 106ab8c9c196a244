-- ===== src/Limits/Tests.antt =====
-- Runs of limits/gcra.py and limits/shed.py, and their theorems at them.
use ledger_proof.Base.{
  ℕ, ◌+◌, ◌-◌, ◌*◌, ◌^◌, ◌≤◌, Bool, true, false, String, none, some, List, [], ◌∷◌, Every, ◌≡◌,
  refl, arith, ok, leb, replicate, leb→le, subst,
}
use ledger_proof.Base.Float.{one, rounded, div, times}
use ledger_proof.Limits.Gcra.{
  fail_open_decision, GcraLimiter, new_limiter, Store, LockOutcome, acquired, lock_error, Answers,
  clock, now_at, check, conform, read, write, locked_check, with_raw, ttl_of, px_of,
  remaining_after,
}
use ledger_proof.Limits.Gcra.Lock.{
  acquire, SetAnswer, set_done, held, Ending, acquire_ends, lock_acquire_timeout,
}
use ledger_proof.Limits.Gcra.Bound.{Range, Sound}
use ledger_proof.Limits.Gcra.Window.{Within, limiter_after, total_admitted, rate_bound}
use ledger_proof.Limits.Shed.{
  Counts, post, test_mode, LoadShedder, new_shedder, disable, should_shed, observe, move,
  target_level,
}
use ledger_proof.Limits.Shed.Gradual.{observe_all, reaches_target}
use ledger_proof.Limits.Shed.Streaks.{replay, levels_by_streaks}
use ledger_proof.Limits.Shed.Decide.{
  Op, sample, request, kill, steps, verdicts, sheds, step, live_of, Mirrors, dark_launch-Mirrors,
}

-- A check in which Redis answers everything.
abbrev clean : ℕ × ℕ → Answers
clean t = record { lock = acquired; time = some t; get_fails = false; set_fails = false }

-- Two requests a second, three at once.
abbrev two_a_second : GcraLimiter
two_a_second = record {
  rate = 2;
  period = one;
  burst = 3;
  emission_interval = 2 ^ 1073;
  tolerance = 2 ^ 1074;
  fail_open = true;
  fail_open_count = 0;
  fail_closed_count = 0;
}

built : new_limiter 2 one 3 true ≡ ok two_a_second
unfolding new_limiter rounded
built = refl

-- Keys vanish as soon as they may.
abbrev prompt : ℕ × ℕ → ℕ → Bool
prompt t e = leb (e * 1000) (clock t)

prompt_late : (t : ℕ × ℕ) (e : ℕ) → prompt t e ≡ true → e * 1000 ≤ clock t
prompt_late t e gone = leb→le (e * 1000) (clock t) gone

abbrev empty : Store
empty key = none

empty-Sound : Sound (2 ^ 1104) empty
empty-Sound = record { cells = λ key c t held. cc }

-- Up to 2 ^ 30 seconds, and with a spacing of 2 ^ -18 seconds.
two_a_second-Range : Range (2 ^ 1056) (2 ^ 1104) two_a_second
two_a_second-Range = record {
  whole = omega arith;
  spaced = omega arith;
  fine = omega arith;
  wide = omega arith;
}

same_time : {x y : ℕ × ℕ} → some x ≡ some y → x ≡ y
same_time e = cc

abbrev outage : Answers
outage = record { lock = lock_error; time = none; get_fails = false; set_fails = false }

abbrev rounds : List (String × Answers)
rounds = ("k", clean (1, 0)) ∷ ("k", outage) ∷ ("k", clean (1, 500)) ∷ []

run_totals :
    (total_admitted prompt "k" two_a_second empty rounds ≡ 3)
    × ((limiter_after prompt two_a_second empty rounds).fail_open_count ≡ 1)
unfolding check locked_check with_raw conform read write now_at px_of ttl_of remaining_after
    fail_open_decision rounded
run_totals = (refl, refl)

in_window :
    (t : ℕ × ℕ) (t0 : ℕ × ℕ)
    → 2 ^ 1074 ≤ now_at t0
    → now_at t0 ≤ 2 ^ 1104
    → some t0 ≡ some t
    → (2 ^ 1074 ≤ now_at t) × (now_at t ≤ 2 ^ 1104)
in_window t t0 low high is =
    subst (λ (x : ℕ × ℕ). (2 ^ 1074 ≤ now_at x) × (now_at x ≤ 2 ^ 1104)) (same_time is) (low, high)

rounds_timed : Every (Within (2 ^ 1074) (2 ^ 1104)) rounds
unfolding now_at rounded
rounds_timed = (
  λ t is. in_window t (1, 0) (omega arith) (omega arith) is,
  (λ t is. cc, (λ t is. in_window t (1, 500) (omega arith) (omega arith) is, tt)),
)

rate_bound_example :
    total_admitted prompt "k" two_a_second empty rounds * (2 ^ 1073 - 2 ^ 1056)
    ≤ 2 ^ 1104
      - 2 ^ 1074
      + (2 ^ 1074 + 2 ^ 1073 + 2 * 2 ^ 1056)
      + ((limiter_after prompt two_a_second empty rounds).fail_open_count - 0)
        * (2 ^ 1073 - 2 ^ 1056)
rate_bound_example =
    rate_bound prompt prompt_late "k" (2 ^ 1074) (2 ^ 1104) (2 ^ 1056) two_a_second empty rounds
      (omega arith) two_a_second-Range empty-Sound rounds_timed

-- Five requests a second, ten at once, at an instant: the last of the ten is refused.
abbrev tick_rate : GcraLimiter
tick_rate = record two_a_second {
  rate = 5;
  burst = 10;
  emission_interval = div one (times one 5);
  tolerance = times (div one (times one 5)) 9;
}

nine_of_ten :
    total_admitted prompt "k" tick_rate empty (replicate 10 ("k", clean (1731447378, 854984))) ≡ 9
unfolding check locked_check with_raw conform read write now_at px_of ttl_of remaining_after rounded
nine_of_ten = refl

-- The lock is free at the third try.
abbrev third : ℕ → SetAnswer
third n = elim (leb 2 n) [ true ↦ set_done | false ↦ held ]

abbrev ticking : ℕ → ℕ
ticking n = n * 2000 + 10

acquire_ends_example :
    (o : LockOutcome) × (acquire third ticking 10 ≡ some o)
    × Ending third ticking (10 + lock_acquire_timeout) 0 o
acquire_ends_example = acquire_ends third ticking (λ n. omega arith) 10 (omega arith)

-- Samples that climb, and ones that fall.
abbrev samples : List ℕ
samples = 9900 ∷ 9900 ∷ 9900 ∷ 9900 ∷ 100 ∷ []

levels_by_streaks_example :
    (observe_all new_shedder samples).level
    ≡ (replay new_shedder.thresholds 2 5 (record { level = 0; recent = [] }) samples).level
levels_by_streaks_example = levels_by_streaks new_shedder samples refl refl refl

-- Two rises, and the fall that one low sample does not yet make.
level_after : (observe_all new_shedder samples).level ≡ 2
unfolding observe move target_level
level_after = refl

shedder_target :
    new_shedder.level * new_shedder.escalate_after + new_shedder.hot + 6
    ≡ target_level new_shedder.thresholds 9500 * new_shedder.escalate_after
unfolding target_level
shedder_target = refl

reaches_target_example :
    (observe_all new_shedder (replicate 6 9500)).level ≡ target_level new_shedder.thresholds 9500
reaches_target_example = reaches_target 6 new_shedder 9500 refl (omega arith) shedder_target

abbrev ops : List Op
ops = sample 9900 ∷ sample 9900 ∷ request test_mode ∷ request post ∷ kill ∷ request test_mode ∷ []

abbrev dark : LoadShedder
dark = record new_shedder { enforce = false }

dark_launch-Mirrors_example :
    Every (λ (v : Bool). v ≡ false) (verdicts dark ops)
    × ((c' : Counts) × (steps (live_of dark dark.counts) ops ≡ live_of (steps dark ops) c')
        × Mirrors (steps dark ops).counts c')
dark_launch-Mirrors_example =
    dark_launch-Mirrors dark dark.counts ops refl (λ t. (refl, refl, refl))

-- The live shedder sheds where the dark one does not.
live_verdicts : verdicts new_shedder ops ≡ false ∷ false ∷ true ∷ false ∷ false ∷ false ∷ []
unfolding sheds step should_shed observe move target_level disable
live_verdicts = refl
