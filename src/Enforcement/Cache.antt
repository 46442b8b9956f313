-- ===== src/Enforcement/Cache.antt =====
-- core/enforcement/cache.go.
use revenium_go_sdk.Base.{ℕ, ◌+◌, ◌*◌, ◌^◌, ltb, ◌==◌, ◌||◌, if◌then◌else◌}
use revenium_go_sdk.Enforcement.RuleSet.{RuleSet, empty_rule_set}

-- Ten polls of 30 seconds.
abbrev pub rule_stale_after : ℕ
rule_stale_after = 10 * (30 * 10 ^ 9)

pub record Cache : Type 0 where
  pub rule_set : RuleSet
  pub updated_at : ℕ  -- 0 is time.Time's zero value

abbrev pub new_cache : Cache
new_cache = record { rule_set = empty_rule_set; updated_at = 0 }

unfoldable pub update_cache : RuleSet → ℕ → Cache → Cache
update_cache s now c = record { rule_set = s; updated_at = now }

unfoldable pub snapshot : ℕ → Cache → RuleSet
snapshot now c =
    if c.updated_at == 0 || ltb (c.updated_at + rule_stale_after) now
    then empty_rule_set
    else c.rule_set
