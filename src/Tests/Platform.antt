-- ===== src/Tests/Platform.antt =====
-- The theorems on the task scheduler, the application host and the signed commands.
use knights.Base.{
  ℕ, ◌+◌, ◌≤◌, ◌≡◌, refl, Bool, true, false, ◌&&◌, Option, some, List, [], ◌∷◌, ◌++◌, ltb, length,
  arith, map,
}
use knights.Base.Maps.{find}
use knights.Concurrent.TaskScheduler.{
  TaskScheduler, DelayedTask, Request, once, every, posts, collect_ready, take_due, tasks_of, count,
  poll,
}
use knights.Concurrent.TaskScheduler.Heap.{least_first}
use knights.Concurrent.TaskScheduler.Due.{InOrder, is_due, action, collect_ready_lem, poll_executes}
use knights.App.AppHost.{optional}
use knights.App.AppHost.Shutdown.{
  Call, stops, signals, adds, declares, reports, after, ran, ran_lem,
}
use knights.App.AppHost.Readiness.{find-status}
use knights.App.AppHost.Readiness
use knights.Security.AdminCommandAuth.{
  Fields, Verifier, default_options, ok, append_signature_fields, verify, canonical_signing_data,
  parse_u64,
}
use knights.Security.AdminCommandAuth.Numbers.{parse_u64-number_from}
use knights.Security.AdminCommandAuth.Replay.{times_accepted, times_accepted-le}
use knights.Security.AdminCommandAuth.Signing.{verify-append_signature_fields}
use knights.Security.AdminCommandAuth.Canonical.{canonical_signing_data-find}

abbrev busy_scheduler : TaskScheduler ℕ
busy_scheduler = record {
  ready = once 1 ∷ [];
  delayed = record { due = 50; task = once 2 } ∷ record { due = 5; task = every 10 3 } ∷ [];
  is_shutdown = false;
}

abbrev is_late : DelayedTask ℕ → Bool
is_late d = ltb 20 d.due

collect_ready_lem_example :
    let moved = (take_due least_first 2 10 busy_scheduler.delayed).0 in
    let (s', out) = collect_ready least_first busy_scheduler 10 1 in
    (out ++ s'.ready ≡ busy_scheduler.ready ++ tasks_of moved)
    × (length out ≤ 1)
    × InOrder moved
    × (count is_late moved ≡ count (λ d. is_late d && is_due 10 d) busy_scheduler.delayed)
    × (count is_late moved + count is_late s'.delayed ≡ count is_late busy_scheduler.delayed)
collect_ready_lem_example = collect_ready_lem least_first busy_scheduler 10 1 is_late

-- Each task posts another.
abbrev post_next : ℕ → List (Request ℕ)
post_next a = posts (a + 1) ∷ []

poll_executes_example :
    let out = poll least_first post_next busy_scheduler 10 (λ i. 11) 8 in
    (moved : List (DelayedTask ℕ)) × (out.1 ≡ 1 ∷ map action (tasks_of moved))
    × InOrder moved
    × ((p : DelayedTask ℕ → Bool)
        → count p moved ≡ count (λ d. p d && is_due 10 d) busy_scheduler.delayed)
    × (out.2 ≡ 2)
poll_executes_example =
    poll_executes least_first post_next (λ a. refl) busy_scheduler 10 (λ i. 11) 8 refl (omega arith)

abbrev host_calls : List (Call ℕ)
host_calls =
    stops
    ∷ adds 3
    ∷ signals
    ∷ adds 2
    ∷ adds 1
    ∷ reports (7 ∷ []) true
    ∷ declares (7 ∷ []) optional
    ∷ []

ran_lem_example : ran host_calls ≡ 2 ∷ 1 ∷ []
ran_lem_example = ran_lem host_calls

find-status_example :
    Readiness.find (7 ∷ []) (after host_calls).dependencies ≡ some (optional, true)
find-status_example = find-status (7 ∷ []) host_calls

-- A stand-in for the HMAC.
abbrev sum_digest : List ℕ → List ℕ → Option (List ℕ)
sum_digest key text = some (length key ∷ length text ∷ [])

abbrev fresh_verifier : Verifier
fresh_verifier = record { secret = 9 ∷ []; options = default_options; seen_nonces = [] }

abbrev command : Fields
command = (99 ∷ [], 120 ∷ []) ∷ []

abbrev signed_command : Fields
signed_command = (append_signature_fields sum_digest command (9 ∷ []) 5000 (110 ∷ []) 1 2).0

times_accepted-le_example :
    times_accepted sum_digest
      (110 ∷ [])
      5000
      fresh_verifier
      ((signed_command, 5001) ∷ (signed_command, 5002) ∷ [])
    ≤ 1
times_accepted-le_example =
    times_accepted-le sum_digest (110 ∷ []) 5000 fresh_verifier 0
      ((signed_command, 5001) ∷ (signed_command, 5002) ∷ []) refl

verify-append_signature_fields_example :
    let sent = append_signature_fields sum_digest command (9 ∷ []) 5000 (110 ∷ []) 1 2 in
    (sent.1 ≡ true) × ((verify sum_digest fresh_verifier sent.0 5001).1 ≡ ok)
verify-append_signature_fields_example =
    verify-append_signature_fields sum_digest fresh_verifier command 5000 (110 ∷ []) 1 2 5001
      (λ key text. refl) refl (omega arith) (omega arith) (omega arith) refl

abbrev turned_command : Fields
turned_command = (100 ∷ [], 121 ∷ []) ∷ (99 ∷ [], 120 ∷ []) ∷ []

canonical_signing_data-find_example :
    find (99 ∷ []) ((99 ∷ [], 120 ∷ []) ∷ (100 ∷ [], 121 ∷ []) ∷ []) ≡ find (99 ∷ []) turned_command
unfolding canonical_signing_data
canonical_signing_data-find_example =
    canonical_signing_data-find ((99 ∷ [], 120 ∷ []) ∷ (100 ∷ [], 121 ∷ []) ∷ []) turned_command
      (99 ∷ []) refl refl refl refl

parse_u64-number_from_example : parse_u64 (49 ∷ 56 ∷ []) ≡ some 18
parse_u64-number_from_example = parse_u64-number_from (49 ∷ 56 ∷ [])
