-- ===== src/Enforcement/Engine/Tests.antt =====
-- Concrete runs of two clients of one team.
use revenium_go_sdk.Base.{
  ◌≡◌, refl, ◌≤◌, List, [], ◌∷◌, Bool, true, false, Text, codes, text_eq, some, arith,
}
use revenium_go_sdk.Enforcement.Context.{EvalContext}
use revenium_go_sdk.Enforcement.Engine.{
  EngineKey, Registration, Poller, no_content, count_unreleased,
}
use revenium_go_sdk.Enforcement.Engine.Counts.Ends.{leases_counted}
use revenium_go_sdk.Enforcement.Engine.Leased.Runs.{lease_keeps_poll, started_between, PolledBy}
use revenium_go_sdk.Enforcement.Engine.Polls.Steps.{no_poll_leaks}
use revenium_go_sdk.Enforcement.Engine.System.{
  Event, starts, boots, fetches, claims, ends, stops, stops_all, run, no_clients,
}

abbrev any_address : Text → Bool
any_address s = true

abbrev team : EngineKey
team = record { base_url = codes "u"; api_key = codes "k"; team_id = codes "t" }

-- The second client starts after a Stop, so both have a lease on the new poll; the first leaves.
abbrev one_left : List Event
one_left = starts team ∷ boots 0 ∷ stops_all ∷ starts team ∷ boots 1 ∷ claims 0 ∷ ends 0 ∷ []

abbrev left : Registration
left = record { poller = 1; leases = 1; started = 2 }

leases_counted_example :
    (left.leases ≡ count_unreleased team (run any_address no_clients one_left).registry.leases)
    × (1 ≤ left.leases)
unfolding run text_eq
leases_counted_example = leases_counted any_address one_left team left refl

abbrev all_left : List Event
all_left =
    starts team
    ∷ boots 0
    ∷ starts team
    ∷ fetches 0 no_content 5
    ∷ claims 1
    ∷ claims 0
    ∷ ends 0
    ∷ ends 1
    ∷ stops 0
    ∷ []

abbrev ended : Poller
ended = record {
  key = team;
  stopped = true;
  running = 0;
  cache = record {
    rule_set = record {
      rules = [];
      department_blocks = [];
      department_balances = [];
      department_candidates = [];
    };
    updated_at = 5;
  };
}

no_poll_leaks_example : (ended.stopped ≡ true) × (ended.running ≡ 0)
unfolding run text_eq
no_poll_leaks_example = no_poll_leaks any_address all_left team 0 ended refl refl refl refl

-- A third client starts, and the two that were there leave.
abbrev two_start : List Event
two_start = starts team ∷ boots 0 ∷ starts team ∷ []

abbrev one_leaves : List Event
one_leaves = claims 0 ∷ claims 1 ∷ ends 1 ∷ ends 0 ∷ []

lease_keeps_poll_example :
    (reg : Registration) × (p : Poller) × ((started_between any_address two_start team
          one_leaves).registry.registrations
        team
      ≡ some reg)
    × PolledBy team (started_between any_address two_start team one_leaves) reg.poller p
unfolding run text_eq
lease_keeps_poll_example = lease_keeps_poll any_address two_start one_leaves team refl (omega arith)

abbrev call : EvalContext
call = record {
  subscriber_id = [];
  subscriber_email = codes "ann@x.io";
  product_name = [];
  model_name = codes "m";
  provider_name = codes "p";
  agent_name = [];
  organization_name = [];
  task = [];
  credential_name = [];
  credential_opaque = false;
  credential_value_only = false;
  served_model_may_be_dated = false;
}
