-- ===== src/Resilience/Registry/Spec.antt =====
-- What the registry of breakers promises: for each scope at most one breaker with its users, and
-- clients that know no more than their scope and whether they gave the breaker back.
use revenium_go_sdk.Base.{
  ℕ, Bool, true, false, List, [], ◌∷◌, ◌++◌, Option, none, some, ◌==◌, get_elem?, update_at, map,
  if◌then◌else◌, Text, text_eq, Unicode,
}
use revenium_go_sdk.Resilience.BreakerState.{Breaker}
use revenium_go_sdk.Resilience.Registry.{
  ScopedBreaker, Breakers, Handle, fresh_breaker, add_user, drop_user, change_breaker, Event,
  acquires, releases, uses, resets,
}

pub record Client : Type 0 where
  pub scope : Text
  pub done : Bool

pub record Shared : Type 0 where
  pub breakers : Text → Option ScopedBreaker
  pub clients : List Client

abbrev pub put_at :
    Text → Option ScopedBreaker → (Text → Option ScopedBreaker) → Text → Option ScopedBreaker
put_at scope v map k = if text_eq k scope then v else map k

abbrev pub joined : ScopedBreaker → Option ScopedBreaker → ScopedBreaker
joined new none = add_user new
joined new (some e) = add_user e

abbrev pub left : Option ScopedBreaker → Option ScopedBreaker
left none = none
left (some e) = if e.users == 1 then none else some (drop_user e)

abbrev pub changed : (Breaker → Breaker) → Option ScopedBreaker → Option ScopedBreaker
changed f none = none
changed f (some e) = some (change_breaker f e)

abbrev pub finish_client : Client → Client
finish_client c = record c { done = true }

abbrev pub leave : ℕ → Option Client → Shared → Shared
leave i none a = a
leave i (some c) a = if c.done then a else record {
  breakers = put_at c.scope (left (a.breakers c.scope)) a.breakers;
  clients = update_at finish_client a.clients i;
}

abbrev pub change : (Breaker → Breaker) → Option Client → Shared → Shared
change f none a = a
change f (some c) a =
    if c.done
    then a
    else record a { breakers = put_at c.scope (changed f (a.breakers c.scope)) a.breakers }

unfoldable pub spec_step : Unicode → Event → Shared → Shared
spec_step u (acquires scope now) a = record {
  breakers = put_at scope (some (joined (fresh_breaker u now) (a.breakers scope))) a.breakers;
  clients = a.clients ++ record { scope = scope; done = false } ∷ [];
}
spec_step u (releases i) a = leave i (get_elem? a.clients i) a
spec_step u (uses f i) a = change f (get_elem? a.clients i) a
spec_step u resets a = record a { breakers = λ k. none }

unfoldable pub spec_run : Unicode → List Event → Shared → Shared
unfolding spec_step
spec_run u [] a = a
spec_run u (e ∷ es) a = spec_run u es (spec_step u e a)

-- What is seen of the registry.
abbrev pub entry_of : List ScopedBreaker → Option ℕ → Option ScopedBreaker
entry_of es none = none
entry_of es (some a) = get_elem? es a

abbrev pub client_of : Handle → Client
client_of h = record { scope = h.scope; done = h.released }

abbrev pub view : Breakers → Shared
view s = record {
  breakers = λ k. entry_of s.entries (s.scoped k);
  clients = map client_of s.handles;
}
