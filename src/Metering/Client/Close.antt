-- ===== src/Metering/Client/Close.antt =====
-- What Close counts, and what is left when no send runs.
use revenium_go_sdk.Base.{ℕ, ◌+◌, ◌-◌, ◌≤◌, ◌≡◌, refl, List, [], ◌∷◌, length, Unicode, arith}
use revenium_go_sdk.Metering.Record.{BufferLimits}
use revenium_go_sdk.Metering.Buffer.System.{start}
use revenium_go_sdk.Metering.Client.{Client, ClientEvent, client_step, client_run, new_client}
use revenium_go_sdk.Base.{◌<◌, ◌∙◌}
use revenium_go_sdk.Metering.Buffer.System.Goodness.{
  Good, running_sends, reserved_bytes, start-Good,
}
use revenium_go_sdk.Metering.Client.{undelivered}
use revenium_go_sdk.Metering.Client.Sends.{
  count_jobs, count_direct, SendsCounted, client_step-SendsCounted,
}
use revenium_go_sdk.Metering.Client.Matched.{Matched-owed, JobsMatched, client_step-JobsMatched}
use revenium_go_sdk.Metering.Client.Owed.{is_reserved, owed_runs, being_sent, sent_runs, run_owes}
use revenium_go_sdk.Metering.Client.Books.{client_step-Good}
use revenium_go_sdk.Metering.Buffer.{SendReservation}

-- What holds at every moment.
record Kept (l : BufferLimits) (s : Client) : Type 0 where
  good : Good l s.books
  matched : JobsMatched s
  sends : SendsCounted s

run-Kept :
    (u : Unicode) (l : BufferLimits) (es : List ClientEvent) (s : Client)
    → Kept l s
    → Kept l (client_run u s es)
unfolding client_run
run-Kept u l [] s k = k
run-Kept u l (e ∷ es) s k = run-Kept u l es (client_step u s e) (record {
  good = client_step-Good u l s k.good e;
  matched = client_step-JobsMatched u s k.matched e;
  sends = client_step-SendsCounted u s k.sends e;
})

new_client-Kept : (l : BufferLimits) → 0 < l.records → Kept l (new_client l)
unfolding new_client count_jobs count_direct start
new_client-Kept l h = record { good = start-Good l h; matched = tt; sends = refl }

-- Calls of Send and SendSync that came after the sample was taken.
abbrev pub came_later : Client → Client → ℕ
came_later s t = (length t.jobs - length s.jobs) + (length t.direct - length s.direct)

-- A send that fails while Close counts is never missed. Close samples the running sends, and later,
-- after any steps of any goroutines, the buffer. Each record that the client took on by then (that
-- the buffer accepted, or that SendSync is delivering) was counted as replayed, as evicted or as
-- done with in its first send, or is in the count of Close, but for the calls of Send and SendSync
-- that began after the sample and the calls of Send that had reserved but not begun when it was taken.
pub close_counts_all :
    (u : Unicode) (l : BufferLimits) (before after : List ClientEvent)
    → 0 < l.records
    → let s = client_run u (new_client l) before in
      let t = client_run u s after in
      t.books.accepted + being_sent t.direct
      ≤ undelivered s t
        + (t.books.buffer.events_replayed + t.books.buffer.events_evicted + t.books.finished)
        + (came_later s t + count_jobs is_reserved s.jobs)
unfolding undelivered
close_counts_all u l before after h =
    let s = client_run u (new_client l) before in
    let t = client_run u s after in
    let k = run-Kept u l before (new_client l) (new_client-Kept l h) in
    let m = run-Kept u l after s k in
    let c = k.sends in
    let o = run_owes u after s in
    let r = owed_runs s.jobs in
    let d = sent_runs s.direct in
    let b = m.good.complete in
    let w = Matched-owed t.books.reservations t.jobs m.matched in omega arith

none_running : (rs : List SendReservation) → running_sends rs ≡ 0 → reserved_bytes rs ≡ 0
none_running [] e = refl
none_running (r ∷ rs) e = ground (arith, none_running rs)

-- Once no send runs and no call of Send is between its reservation and its begin, nothing of the
-- byte limit is held for sends, whatever failed, panicked or found no room in the pool.
pub idle_returns_bytes :
    (u : Unicode) (l : BufferLimits) (es : List ClientEvent)
    → 0 < l.records
    → (client_run u (new_client l) es).sends ≡ 0
    → count_jobs is_reserved (client_run u (new_client l) es).jobs ≡ 0
    → (client_run u (new_client l) es).books.buffer.sending_bytes ≡ 0
idle_returns_bytes u l es h z y =
    let s = client_run u (new_client l) es in
    let k = run-Kept u l es (new_client l) (new_client-Kept l h) in
    let c = k.sends in
    let r = owed_runs s.jobs in
    let w = Matched-owed s.books.reservations s.jobs k.matched in
    let n = none_running s.books.reservations (omega arith) in k.good.balanced.sent ∙ n
