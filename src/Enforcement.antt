-- ===== src/Enforcement.antt =====
-- The package core/enforcement: cost-control rules, judged before a call is made.
pub mod Rule
pub mod Context
pub mod Models
pub mod Matcher
pub mod RuleSet
pub mod Cache
pub mod Engine
pub mod Evaluator
mod Tests
