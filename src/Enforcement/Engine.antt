-- ===== src/Enforcement/Engine.antt =====
-- core/enforcement/engine.go with the state of a poller (poller.go): leases on the rules of a
-- team, and the poll that the leases of a team share. A method that holds `enginesMu` or `p.mu`
-- is one step. A pointer is the place of what it points at in a list that only grows, and the map
-- of registrations is a function. `unreleased` is kept as the mark `held` of each lease: its inner
-- maps are the marked leases of one key. The closing of `ready` orders a second Start after the
-- first fetch and changes no state.
pub mod Checks
pub mod Counting
pub mod Counts
pub mod Kept
pub mod Leased
pub mod Polls
pub mod System
mod Tests
use revenium_go_sdk.Base.{
  ℕ, zero, suc, ◌+◌, ◌-◌, ◌^◌, ◌%◌, List, [], ◌∷◌, ◌++◌, Bool, true, false, not, ◌&&◌, ◌||◌, Option,
  none, some, ltb, ◌==◌, if◌then◌else◌, length, map, get_elem?, update_at, Text, text_eq, is_empty,
  Unicode,
}
use revenium_go_sdk.Enforcement.Context.{EvalContext}
use revenium_go_sdk.Enforcement.RuleSet.{RuleSet, NearLimitLog, empty_rule_set}
use revenium_go_sdk.Enforcement.Cache.{Cache, new_cache, update_cache, snapshot}
use revenium_go_sdk.Enforcement.Evaluator.{Verdict, evaluate}

pub record EngineKey : Type 0 where
  pub base_url : Text
  pub api_key : Text
  pub team_id : Text

unfoldable pub key_eq : EngineKey → EngineKey → Bool
key_eq j k =
    text_eq j.base_url k.base_url && (text_eq j.api_key k.api_key && text_eq j.team_id k.team_id)

-- `running` counts what `wg` counts: boots and poll loops that have not ended.
pub record Poller : Type 0 where
  pub key : EngineKey
  pub stopped : Bool
  pub running : ℕ
  pub cache : Cache

pub record Lease : Type 0 where
  pub key : EngineKey
  pub registration : ℕ
  pub released : Bool
  pub held : Bool

-- A registration is made with its poller, so the place of the poller names both.
pub record Registration : Type 0 where
  pub poller : ℕ
  pub leases : ℕ
  pub started : ℕ

pub record Registry : Type 0 where
  pub registrations : EngineKey → Option Registration
  pub leases : List Lease
  pub pollers : List Poller
  pub registered : ℕ

abbrev pub no_engines : Registry
no_engines = record { registrations = λ k. none; leases = []; pollers = []; registered = 0 }

abbrev pub new_poller : EngineKey → Poller
new_poller k = record { key = k; stopped = false; running = 0; cache = new_cache }

-- `m[k] = v`, and `delete(m, k)` for none.
unfoldable pub put :
    EngineKey
    → Option Registration
    → (EngineKey → Option Registration)
    → EngineKey
    → Option Registration
unfolding key_eq
put k v m j = if key_eq j k then v else m j

-- A lease that `unreleased[k]` holds.
unfoldable pub unreleased_on : EngineKey → Lease → Bool
unfolding key_eq
unreleased_on k l = l.held && key_eq l.key k

unfoldable pub count_unreleased : EngineKey → List Lease → ℕ
unfolding unreleased_on
count_unreleased k [] = 0
count_unreleased k (l ∷ ls) =
    let rest = count_unreleased k ls in if unreleased_on k l then suc rest else rest

-- The leases left from before a Stop move to the new registration.
unfoldable pub adopt : EngineKey → ℕ → Lease → Lease
unfolding unreleased_on
adopt k a l = if unreleased_on k l then record l { registration = a } else l

abbrev pub new_lease : EngineKey → ℕ → Lease
new_lease k a = record { key = k; registration = a; released = false; held = true }

abbrev joined : EngineKey → Registration → Registry → Registry
joined k reg s = record s {
  registrations = put k (some (record reg { leases = suc reg.leases })) s.registrations;
  leases = s.leases ++ new_lease k reg.poller ∷ [];
}

abbrev opened : EngineKey → Registry → Registry
opened k s =
    let a = length s.pollers in
    let n = (s.registered + 1) % 2 ^ 64 in
    let reg : Registration = record {
      poller = a;
      leases = suc (count_unreleased k s.leases);
      started = n;
    } in
    record {
      registrations = put k (some reg) s.registrations;
      leases = map (adopt k a) s.leases ++ new_lease k a ∷ [];
      pollers = s.pollers ++ new_poller k ∷ [];
      registered = n;
    }

abbrev registered_on : Option Registration → EngineKey → Registry → Registry
registered_on none k s = opened k s
registered_on (some reg) k s = joined k reg s

-- The lease that `register` returns is the last of the list.
unfoldable pub register : EngineKey → Registry → Registry
unfolding put count_unreleased adopt
register k s = registered_on (s.registrations k) k s

-- `begin`: a stopped poller stays stopped.
unfoldable pub begin_poll : Poller → Poller
begin_poll p = if p.stopped then p else record p { running = suc p.running }

-- `stop`: marking the poller and waiting for its poll to end, as one step.
unfoldable pub stop_poll : Poller → Poller
stop_poll p = record p { stopped = true; running = 0 }

-- `boot`: without a team or an address of the right form there is no poll. `valid_base_url` reads
-- the address with a parser of the standard library.
unfoldable pub boot : (Text → Bool) → Poller → Poller
unfolding begin_poll
boot valid_base_url p =
    if is_empty p.key.team_id || not (valid_base_url p.key.base_url) then p else begin_poll p

-- What the server answered: 204, 200 with rules that can be read, or anything else.
pub data Answer : Type 0 where
  no_content : Answer
  loaded : RuleSet → Answer
  fetch_failed : Answer

abbrev fetched : Answer → ℕ → Cache → Cache
fetched no_content now c = update_cache empty_rule_set now c
fetched (loaded set) now c = update_cache set now c
fetched fetch_failed now c = c

unfoldable pub fetch_rules : Answer → ℕ → Poller → Poller
unfolding update_cache
fetch_rules answer now p =
    if is_empty p.key.team_id then p else record p { cache = fetched answer now p.cache }

-- The compare-and-swap of `release`.
unfoldable pub claim : Lease → Lease
claim l = record l { released = true }

unfoldable pub drop_held : Lease → Lease
drop_held l = record l { held = false }

abbrev one_lease_less : EngineKey → Registration → Registry → Registry
one_lease_less k reg s = record s {
  registrations = put k (some (record reg { leases = reg.leases - 1 })) s.registrations;
}

abbrev poll_dropped : EngineKey → Registry → Registry
poll_dropped k s = record s { registrations = put k none s.registrations }

-- What `end` gives back: the registration whose poller is to be stopped, named by its poller.
abbrev ended_on : Option Registration → Lease → Registry → Option ℕ × Registry
ended_on none l s = (none, s)
ended_on (some reg) l s =
    if not (reg.poller == l.registration)
    then (none, s)
    else if ltb 0 (reg.leases - 1)
    then (none, one_lease_less l.key reg s)
    else (some reg.poller, poll_dropped l.key s)

abbrev ended_lease : Option Lease → ℕ → Registry → Option ℕ × Registry
ended_lease none i s = (none, s)
ended_lease (some l) i s =
    ended_on (s.registrations l.key) l (record s { leases = update_at drop_held s.leases i })

-- `end` of the i-th lease.
unfoldable pub end_lease : ℕ → Registry → Option ℕ × Registry
unfolding drop_held update_at put
end_lease i s = ended_lease (get_elem? s.leases i) i s

abbrev registers : Option Registration → ℕ → Bool
registers none a = false
registers (some reg) a = reg.poller == a

-- The pollers from place `a` on, those of running registrations stopped.
unfoldable pub stop_registered : (EngineKey → Option Registration) → ℕ → List Poller → List Poller
unfolding stop_poll
stop_registered m a [] = []
stop_registered m a (p ∷ ps) =
    (if registers (m p.key) a then stop_poll p else p) ∷ stop_registered m (suc a) ps

-- `Stop`.
unfoldable pub stop_all : Registry → Registry
unfolding stop_registered
stop_all s = record s {
  registrations = λ k. none;
  pollers = stop_registered s.registrations 0 s.pollers;
}

abbrev poller_at : Option Registration → Registry → Option Poller
poller_at none s = none
poller_at (some reg) s = get_elem? s.pollers reg.poller

abbrev judged : Unicode → Option Poller → ℕ → EvalContext → NearLimitLog → Verdict
judged u none now ec log = (none, log)
judged u (some p) now ec log = evaluate u (snapshot now p.cache) ec log

-- `Check` of an engine of the key; `ec` is the context with the engine's defaults filled in.
unfoldable pub check_call :
    Unicode → EngineKey → ℕ → EvalContext → NearLimitLog → Registry → Verdict
unfolding evaluate snapshot
check_call u k now ec log s = judged u (poller_at (s.registrations k) s) now ec log
