-- ===== src/Enforcement/Engine/Checks.antt =====
-- What a call is judged by, once clients have come and gone.
use revenium_go_sdk.Base.{◌≡◌, ℕ, List, Bool, none, Text, Unicode, arith}
use revenium_go_sdk.Enforcement.Context.{EvalContext}
use revenium_go_sdk.Enforcement.RuleSet.{NearLimitLog}
use revenium_go_sdk.Enforcement.Engine.{EngineKey, count_unreleased, check_call}
use revenium_go_sdk.Enforcement.Engine.Polls.Steps.{run-Sound, no_clients-Sound, unregistered}
use revenium_go_sdk.Enforcement.Engine.System.{Event, run, no_clients}

-- After any interleaving, an engine whose key has no unreleased lease left allows every call and
-- logs nothing.
pub calls_allowed_without_leases :
    (valid : Text → Bool) (u : Unicode) (es : List Event) (k : EngineKey) (now : ℕ)
    (ec : EvalContext) (log : NearLimitLog)
    → count_unreleased k (run valid no_clients es).registry.leases ≡ 0
    → check_call u k now ec log (run valid no_clients es).registry ≡ (none, log)
unfolding check_call
calls_allowed_without_leases valid u es k now ec log c =
    let (inv, t) = run-Sound valid no_clients es no_clients-Sound in
    let e = unregistered k (run valid no_clients es).registry inv c in ground arith
