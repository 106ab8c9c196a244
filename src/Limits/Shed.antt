-- ===== src/Limits/Shed.antt =====
-- ledgerproof/limits/shed.py: tiered load shedding. Pressure and thresholds are only compared, so
-- they are whole numbers of some unit (1/10000 below). `counts` is a Counter keyed by an action and a
-- tier; the log lines and `snapshot`, which only reads, are left out.
pub mod Gradual
pub mod Streaks
pub mod Decide
use ledger_proof.Base.{
  ℕ, suc, ◌+◌, ◌-◌, Bool, true, false, ◌&&◌, not, String, leb, ltb, if◌then◌else◌,
}

pub data Tier : Type 0 where
  test_mode get post critical : Tier

-- `int(tier)`
abbrev pub rank : Tier → ℕ
rank test_mode = 0
rank get = 1
rank post = 2
rank critical = 3

abbrev pub default_thresholds : Tier → ℕ
default_thresholds test_mode = 6000
default_thresholds get = 7500
default_thresholds post = 9000
default_thresholds critical = 9800

abbrev pub escalate_after_default : ℕ
escalate_after_default = 2

abbrev pub recover_after_default : ℕ
recover_after_default = 5

-- The prefixes of the counters' keys.
pub data Action : Type 0 where
  would_shed dark_launch_allowed shed allowed : Action

abbrev pub Counts : Type 0
Counts = Action → Tier → ℕ

abbrev action_eq : Action → Action → Bool
action_eq would_shed would_shed = true
action_eq dark_launch_allowed dark_launch_allowed = true
action_eq shed shed = true
action_eq allowed allowed = true
action_eq _ _ = false

abbrev tier_eq : Tier → Tier → Bool
tier_eq test_mode test_mode = true
tier_eq get get = true
tier_eq post post = true
tier_eq critical critical = true
tier_eq _ _ = false

-- `self.counts[f"{action}:{tier.name}"] += 1`
unfoldable pub count : Action → Tier → Counts → Counts
count a t c b u = if action_eq a b && tier_eq t u then c b u + 1 else c b u

pub record LoadShedder : Type 0 where
  pub thresholds : Tier → ℕ
  pub enforce : Bool
  pub escalate_after : ℕ
  pub recover_after : ℕ
  pub level : ℕ
  pub pressure : ℕ
  pub enabled : Bool
  pub hot : ℕ
  pub calm : ℕ
  pub counts : Counts

pub record ShedDecision : Type 0 where
  pub shed : Bool
  pub tier : Tier
  pub level : ℕ
  pub pressure : ℕ
  pub enforced : Bool
  pub reason : String

unfoldable pub disable : LoadShedder → LoadShedder
disable s = record s { enabled = false; level = 0; hot = 0; calm = 0 }

unfoldable pub enable : LoadShedder → LoadShedder
enable s = record s { enabled = true }

abbrev one_if : Bool → ℕ
one_if b = if b then 1 else 0

-- `_target_level`, of `self.thresholds`: how many tiers the pressure has reached.
unfoldable pub target_level : (Tier → ℕ) → ℕ → ℕ
target_level thresholds p =
    one_if (leb (thresholds test_mode) p)
    + one_if (leb (thresholds get) p)
    + one_if (leb (thresholds post) p)
    + one_if (leb (thresholds critical) p)

abbrev escalate : LoadShedder → LoadShedder
escalate s = if leb s.escalate_after s.hot then record s { level = s.level + 1; hot = 0 } else s

abbrev relax : LoadShedder → LoadShedder
relax s = if leb s.recover_after s.calm then record s { level = s.level - 1; calm = 0 } else s

-- `observe`, with the target level computed; the level returned is that of the new state.
unfoldable pub move : LoadShedder → ℕ → LoadShedder
move s target =
    if ltb s.level target
    then escalate (record s { hot = s.hot + 1; calm = 0 })
    else if ltb target s.level
    then relax (record s { calm = s.calm + 1; hot = 0 })
    else record s { hot = 0; calm = 0 }

unfoldable pub observe : LoadShedder → ℕ → LoadShedder
unfolding move
observe s p =
    let t = record s { pressure = p } in
    if not t.enabled then t else move t (target_level t.thresholds p)

abbrev outcome_action : Bool → Action
outcome_action enforce = if not enforce then dark_launch_allowed else shed

-- The counters that `should_shed` advances.
abbrev counted : LoadShedder → Tier → Counts
counted s t =
    if ltb (rank t) s.level
    then count (outcome_action s.enforce) t (count would_shed t s.counts)
    else count allowed t s.counts

unfoldable pub should_shed : LoadShedder → Tier → ShedDecision × LoadShedder
should_shed s t =
    if not s.enabled
    then (
      record {
        shed = false;
        tier = t;
        level = s.level;
        pressure = s.pressure;
        enforced = false;
        reason = "kill_switch";
      },
      s,
    )
    else (
      record {
        shed = ltb (rank t) s.level && s.enforce;
        tier = t;
        level = s.level;
        pressure = s.pressure;
        enforced = s.enforce;
        reason = if ltb (rank t) s.level then "shed_by_tier" else "";
      },
      record s { counts = counted s t },
    )

-- `LoadShedder()`
abbrev pub new_shedder : LoadShedder
new_shedder = record {
  thresholds = default_thresholds;
  enforce = true;
  escalate_after = escalate_after_default;
  recover_after = recover_after_default;
  level = 0;
  pressure = 0;
  enabled = true;
  hot = 0;
  calm = 0;
  counts = λ _ _. 0;
}
