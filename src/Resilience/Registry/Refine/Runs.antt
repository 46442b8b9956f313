-- ===== src/Resilience/Registry/Refine/Runs.antt =====
-- The registry refines its specification.
use revenium_go_sdk.Base.{
  ◌≡◌, refl, ap, sym, ◌∙◌, true, false, List, [], ◌∷◌, none, get_elem?, Unicode, arith,
}
use revenium_go_sdk.Resilience.Registry.{
  Breakers, no_breakers, fresh_breaker, acquire_circuit_breaker, release_handle, use_breaker, Event,
  acquires, releases, uses, resets, step, run,
}
use revenium_go_sdk.Resilience.Registry.Counts.{IsCounted, no_breakers-IsCounted}
use revenium_go_sdk.Resilience.Registry.Counts.Runs.{step-IsCounted}
use revenium_go_sdk.Resilience.Registry.Spec.{leave, change, spec_step, spec_run, view}
use revenium_go_sdk.Resilience.Registry.Refine.{
  IsHeld, is_reset, no_resets, get_elem?-map, view-acquired, view-used, view-left,
}
use revenium_go_sdk.Resilience.Registry.Refine.Held.{step-IsHeld}

step_refines :
    (u : Unicode) (e : Event) (s : Breakers)
    → is_reset e ≡ false
    → IsCounted s
    → IsHeld s
    → view (step u e s) ≡ spec_step u e (view s)
unfolding step spec_step acquire_circuit_breaker release_handle use_breaker
step_refines u (acquires scope now) s n c t =
    view-acquired s scope (fresh_breaker u now) (s.scoped scope) c refl
step_refines u (releases i) s n c t =
    view-left s i (get_elem? s.handles i) c t refl
    ∙ ap (λ o. leave i o (view s)) (sym (get_elem?-map s.handles i))
step_refines u (uses f i) s n c t =
    view-used s f i (get_elem? s.handles i) c t refl
    ∙ ap (λ o. change f o (view s)) (sym (get_elem?-map s.handles i))
step_refines u resets s n c t = absurd (ground arith)

run_refines_from :
    (u : Unicode) (es : List Event) (s : Breakers)
    → no_resets es ≡ true
    → IsCounted s
    → IsHeld s
    → view (run u es s) ≡ spec_run u es (view s)
unfolding run spec_run
run_refines_from u [] s n c t = refl
run_refines_from u (e ∷ es) s n c t =
    let m : is_reset e ≡ false = ground arith in
    run_refines_from u es (step u e s) (ground arith) (step-IsCounted u e s c)
      (step-IsHeld u e s m c t)
    ∙ ap (spec_run u es) (step_refines u e s m c t)

-- Without a reset, the clients of a scope share one breaker: whatever clients acquire breakers, use
-- them and give them back, in any order, the registry behaves as a map from a scope to the breaker
-- and the number of its clients, in which the first client of a scope makes a fresh breaker, each use
-- is seen by all clients of the scope and by no other, and the last client removes the breaker.
pub run_refines :
    (u : Unicode) (es : List Event)
    → no_resets es ≡ true
    → view (run u es no_breakers) ≡ spec_run u es (record { breakers = λ k. none; clients = [] })
run_refines u es n =
    run_refines_from u es no_breakers n no_breakers-IsCounted (λ i h g m. ground arith)
