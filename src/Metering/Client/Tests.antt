-- ===== src/Metering/Client/Tests.antt =====
-- The theorems on the client at concrete inputs.
use revenium_go_sdk.Base.{
  ◌+◌, ◌≤◌, ◌≡◌, refl, List, [], ◌∷◌, true, false, some, arith, codes, ascii, length, update_at,
}
use revenium_go_sdk.Core.Errors.{Failure}
use revenium_go_sdk.Resilience.Classify.{response_error}
use revenium_go_sdk.Metering.Record.{BufferedEvent, BufferLimits, event_bytes}
use revenium_go_sdk.Metering.Buffer.{evict_oldest_until, evict_loop, release, hold}
use revenium_go_sdk.Metering.Client.{
  ClientEvent, enqueues, begins, submits, delivers, releases_job, ends_job, sends_sync,
  delivers_sync, ends_with, overflows, client_run, new_client, undelivered, Client,
}
use revenium_go_sdk.Metering.Client.Sends.{count_jobs}
use revenium_go_sdk.Metering.Client.Owed.{is_reserved, being_sent}
use revenium_go_sdk.Metering.Client.Close.{close_counts_all, idle_returns_bytes, came_later}

abbrev limits : BufferLimits
limits = record { records = 10; bytes = 1000 }

abbrev usage : BufferedEvent
usage = record {
  created_at = 0;
  url = codes "u";
  body = 7 ∷ [];
  headers = [];
  idempotency_key = [];
}

abbrev unavailable : Failure
unavailable = response_error (codes "unavailable") 503 0

-- A record that the pool took and one that it refused, and a direct send.
abbrev before : List ClientEvent
before =
    enqueues usage
    ∷ begins 0
    ∷ submits 0 true true
    ∷ enqueues usage
    ∷ begins 0
    ∷ submits 0 false false
    ∷ sends_sync usage
    ∷ []

-- The delivery fails and holds its record, as the others do.
abbrev after : List ClientEvent
after =
    delivers 1 5 (ends_with (some unavailable))
    ∷ overflows 0 6
    ∷ delivers_sync 0 7 (ends_with (some unavailable))
    ∷ releases_job 1
    ∷ ends_job 1
    ∷ ends_job 0
    ∷ []

abbrev sampled : Client
sampled = client_run ascii (new_client limits) before

abbrev later : Client
later = client_run ascii sampled after

three_run : sampled.sends ≡ 3
unfolding client_run new_client event_bytes update_at evict_oldest_until evict_loop
three_run = refl

close_counts_all_example :
    later.books.accepted + being_sent later.direct
    ≤ undelivered sampled later
      + (later.books.buffer.events_replayed + later.books.buffer.events_evicted
          + later.books.finished)
      + (came_later sampled later + count_jobs is_reserved sampled.jobs)
close_counts_all_example = close_counts_all ascii limits before after (omega arith)

all_held : length later.books.buffer.events ≡ 3
unfolding client_run new_client event_bytes update_at evict_oldest_until response_error release hold
    evict_loop
all_held = refl

abbrev one_failed : List ClientEvent
one_failed =
    enqueues usage
    ∷ begins 0
    ∷ submits 0 true true
    ∷ delivers 0 5 (ends_with (some unavailable))
    ∷ releases_job 0
    ∷ ends_job 0
    ∷ []

idle_returns_bytes_example :
    (client_run ascii (new_client limits) one_failed).books.buffer.sending_bytes ≡ 0
unfolding client_run new_client event_bytes update_at count_jobs
idle_returns_bytes_example = idle_returns_bytes ascii limits one_failed (omega arith) refl refl
