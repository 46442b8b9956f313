-- ===== src/Metering/Buffer/System/Limits.antt =====
-- No operation changes the limits.
use revenium_go_sdk.Base.{ℕ, ◌-◌, ◌≡◌, refl, List, [], ◌∷◌, arith}
use revenium_go_sdk.Metering.Buffer.{
  Buffer, push, reserve_for_send, release_send, hold_sent, take_pending, take_from, evict_expired,
  end_outage, evict_oldest_until,
}
use revenium_go_sdk.Metering.Buffer.Replay.{put_back}
use revenium_go_sdk.Metering.Record.{BufferedEvent}

module _ (b : Buffer) where
  pub limits-push : (now : ℕ) (e : BufferedEvent) → (push now e b).limits ≡ b.limits
  unfolding push evict_oldest_until
  limits-push now e = ground arith

  pub limits-reserve : (size : ℕ) → (reserve_for_send size b).1.limits ≡ b.limits
  unfolding reserve_for_send evict_oldest_until
  limits-reserve size = ground arith

  pub limits-release_send : (size : ℕ) → (release_send size b).limits ≡ b.limits
  unfolding release_send
  limits-release_send size = ground arith

  limits-take_from : (es : List BufferedEvent) → (take_from es b).1.limits ≡ b.limits
  unfolding end_outage
  limits-take_from [] = ground arith
  limits-take_from (e ∷ es) = refl

  pub limits-put_back : (kept : List BufferedEvent) → (put_back kept b).limits ≡ b.limits
  unfolding put_back evict_oldest_until
  limits-put_back [] = ground arith
  limits-put_back (e ∷ es) = refl

pub limits-hold_sent :
    (b : Buffer) (now : ℕ) (e : BufferedEvent) (size : ℕ)
    → (hold_sent now e size b).limits ≡ b.limits
unfolding hold_sent
limits-hold_sent b now e size =
    limits-push (record b { sending_bytes = b.sending_bytes - size }) now e

pub limits-take : (b : Buffer) (now : ℕ) → (take_pending now b).1.limits ≡ b.limits
unfolding take_pending evict_expired
limits-take b now = limits-take_from (evict_expired now b) (evict_expired now b).events
