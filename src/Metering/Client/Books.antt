-- ===== src/Metering/Client/Books.antt =====
-- The books of the buffer stay balanced beside the client's sends.
use revenium_go_sdk.Base.{ℕ, ◌≡◌, Option, none, some, get_elem?, Unicode, arith, inl, inr}
use revenium_go_sdk.Metering.Record.{event_bytes, BufferLimits}
use revenium_go_sdk.Metering.Buffer.System.{System, reserves, step}
use revenium_go_sdk.Metering.Client.{
  Job, Direct, delivering, finishing, returned, Client, Delivery, ends_with, panics, ClientEvent,
  enqueues, begins, submits, overflows, delivers, releases_job, ends_job, sends_sync, delivers_sync,
  ends_sync, flushes_takes, flushes_resends, flushes_returns, on_job, on_direct, deliver_direct,
  client_step,
}
use revenium_go_sdk.Base.{◌⊎◌, subst, sym}
use revenium_go_sdk.Metering.Buffer.System.{Event, releases, holds, takes, resends, returns, pushes}
use revenium_go_sdk.Metering.Buffer.System.Goodness.{Good, step-Good}
use revenium_go_sdk.Metering.Client.{settling}

module _ (u : Unicode) (l : BufferLimits) (s : Client) (g : Good l s.books) where
  at_job :
      (f : Job → ℕ → Client → Client) (i : ℕ)
      → ((j : Job) → Good l (f j i s).books)
      → (o : Option Job) → Good l (on_job f o i s).books
  at_job f i k none = g
  at_job f i k (some j) = k j

  booked : (e : Event) → Good l (step u s.books e)
  booked = step-Good u l s.books g

  kept : (t : System) → t ≡ s.books → Good l t
  kept t e = subst (Good l) (sym e) g

  booked_or_kept : (t : System) (e : Event) → (t ≡ s.books) ⊎ (t ≡ step u s.books e) → Good l t
  booked_or_kept t e (inl p) = kept t p
  booked_or_kept t e (inr p) = subst (Good l) (sym p) (booked e)

  held_direct-Good :
      (now : ℕ) (d : Delivery) (i : ℕ) (x : Direct) → Good l (deliver_direct u now d x i s).books
  held_direct-Good now (ends_with none) i (delivering e) = g
  held_direct-Good now (ends_with (some err)) i (delivering e) =
      booked_or_kept _ (pushes now e) (ground arith)
  held_direct-Good now (panics b) i (delivering e) = kept _ (ground arith)
  held_direct-Good now d i finishing = kept _ (ground arith)
  held_direct-Good now d i returned = kept _ (ground arith)

  direct-Good :
      (f : Direct → ℕ → Client → Client) (i : ℕ)
      → ((x : Direct) → Good l (f x i s).books)
      → (o : Option Direct) → Good l (on_direct f o i s).books
  direct-Good f i k none = g
  direct-Good f i k (some x) = k x

  pub client_step-Good : (e : ClientEvent) → Good l (client_step u s e).books
  unfolding client_step
  client_step-Good (enqueues e) = booked_or_kept _ (reserves (event_bytes e)) (ground arith)
  client_step-Good (begins i) = at_job _ i (λ j. kept _ (ground arith)) (get_elem? s.jobs i)
  client_step-Good (submits i taken room) =
      at_job _ i (λ j. kept _ (ground arith)) (get_elem? s.jobs i)
  client_step-Good (overflows i now) =
      at_job _ i (λ j. booked_or_kept _ (holds i now j.event) (ground arith)) (get_elem? s.jobs i)
  client_step-Good (delivers i now (ends_with err)) =
      at_job _ i (λ j. booked_or_kept _ (settling u i now j.event err) (ground arith))
        (get_elem? s.jobs i)
  client_step-Good (delivers i now (panics b)) =
      at_job _ i (λ j. kept _ (ground arith)) (get_elem? s.jobs i)
  client_step-Good (releases_job i) =
      at_job _ i (λ j. booked_or_kept _ (releases i) (ground arith)) (get_elem? s.jobs i)
  client_step-Good (ends_job i) = at_job _ i (λ j. kept _ (ground arith)) (get_elem? s.jobs i)
  client_step-Good (sends_sync e) = g
  client_step-Good (delivers_sync i now d) =
      direct-Good _ i (held_direct-Good now d i) (get_elem? s.direct i)
  client_step-Good (ends_sync i) =
      direct-Good _ i (λ x. kept _ (ground arith)) (get_elem? s.direct i)
  client_step-Good (flushes_takes now) = booked (takes now)
  client_step-Good (flushes_resends send) = booked (resends send)
  client_step-Good flushes_returns = booked returns
