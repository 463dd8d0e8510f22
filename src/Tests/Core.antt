-- ===== src/Tests/Core.antt =====
-- The queues, the memory pool, the dispatcher and the instance registry at concrete inputs.
use knights.Base.{
  ℕ, ◌+◌, ◌≡◌, Bool, true, false, some, List, [], ◌∷◌, ◌++◌, arith, keep, length, is_empty,
}
use knights.Memory.{new_pool, acquire}
use knights.Memory.Client.{Call, acquires, returns, after, IsFresh, after-acquire-IsFresh}
use knights.Concurrent.Order
use knights.Concurrent.Order.{all_added, all_taken}
use knights.Concurrent.JobQueue
use knights.Concurrent.JobQueue.{JobQueue, answers}
use knights.Concurrent.JobQueue.Fifo
use knights.Concurrent.JobQueue.Fifo.{
  job_queue, pushes, tries, pops, stops, front, accepted_jobs, after_bound, stop-drains,
}
use knights.Concurrent.LockedQueue.{LockedQueue}
use knights.Concurrent.LockedQueue.Wait
use knights.Concurrent.LockedQueue.Wait.{added_items}
use knights.Net.Dispatcher.{
  any, authenticated, in_room, admin, worker, inline, only_tcp, both, tcp, udp, reliable_ordered,
  SessionStatus, Task, Entry, Context, dispatch, transport_allows, satisfies_required_state,
}
use knights.Net.Dispatcher
use knights.Net.Dispatcher.Fate.{Fate, dispatch-Fate}
use knights.State.InstanceRegistry.{InstanceRecord, InstanceSelector, select_instances}
use knights.State.InstanceRegistry.Selection.{is_selected, select_instances-keep}
use knights.State.InstanceRegistry.Backend
use knights.State.InstanceRegistry.Backend.{upserts, removes, touches, registered, find-after}

-- Two blocks of 16 bytes at address 4096: both are lent, then one comes back.
abbrev lending : List Call
lending = returns 4096 ∷ acquires ∷ acquires ∷ []

after-acquire-IsFresh_example :
    IsFresh 4096 16 2
      (after (new_pool 4096 16 2) lending).held
      (acquire (after (new_pool 4096 16 2) lending).pool).1
after-acquire-IsFresh_example =
    after-acquire-IsFresh 4096 16 2 (omega arith) (omega arith) (omega arith) lending

abbrev job_calls : List (Fifo.Call ℕ)
job_calls = pops ∷ tries (some 9) ∷ pushes (some 8) ∷ tries (some 7) ∷ []

accepted_jobs_example :
    all_added (job_queue ℕ) (JobQueue.new_queue 2) job_calls
    ≡ all_taken (job_queue ℕ) (JobQueue.new_queue 2) job_calls
      ++ (Order.after (job_queue ℕ) (JobQueue.new_queue 2) job_calls).jobs
accepted_jobs_example = accepted_jobs 2 job_calls

abbrev two_jobs : JobQueue ℕ
two_jobs = record { jobs = 7 ∷ 8 ∷ []; stopping = false; max_size = 2 }

abbrev late_calls : List (Fifo.Call ℕ)
late_calls = pops ∷ tries (some 9) ∷ []

stop-drains_example :
    (all_added (job_queue ℕ) (JobQueue.stop two_jobs) late_calls ≡ [])
    × (two_jobs.jobs
        ≡ all_taken (job_queue ℕ) (JobQueue.stop two_jobs) late_calls
          ++ (Order.after (job_queue ℕ) (JobQueue.stop two_jobs) late_calls).jobs)
    × ((JobQueue.pop (Order.after (job_queue ℕ) (JobQueue.stop two_jobs) late_calls)).1
        ≡ answers (front (Order.after (job_queue ℕ) (JobQueue.stop two_jobs) late_calls).jobs))
stop-drains_example = stop-drains two_jobs late_calls

abbrev one_item : LockedQueue ℕ
one_item = record { items = 7 ∷ []; capacity = 3; shutdown = false }

abbrev stopped_calls : List (Wait.Call ℕ)
stopped_calls = Wait.pops ∷ Wait.tries 9 ∷ Wait.pushes 8 ∷ []

-- Handler 1 throws on an empty payload.
abbrev run_example : Task ℕ → SessionStatus → SessionStatus × Bool
run_example task current = (current, is_empty task.payload)

abbrev entry_table : List (ℕ × Entry ℕ)
entry_table =
    (
      5,
      record {
        handler = 1;
        policy = record {
          required_state = authenticated;
          processing_place = worker;
          transport = both;
          delivery = reliable_ordered;
          channel = 0;
        };
      },
    )
    ∷ []

abbrev session_context : Context ℕ
session_context = record {
  session_status = in_room;
  is_shared = true;
  errors = [];
  ran = [];
  strand = [];
  job_queue = some (record { jobs = []; stopping = false; max_size = 4 });
}

dispatch-Fate_example :
    Fate run_example session_context
      (Dispatcher.find entry_table 5)
      (1 ∷ 2 ∷ [])
      udp
      (dispatch run_example entry_table 5 session_context (1 ∷ 2 ∷ []) udp).0
      (dispatch run_example entry_table 5 session_context (1 ∷ 2 ∷ []) udp).1
dispatch-Fate_example = dispatch-Fate run_example entry_table 5 session_context (1 ∷ 2 ∷ []) udp

abbrev instance_of : List ℕ → ℕ → InstanceRecord
instance_of id port = record {
  instance_id = id;
  host = [];
  port = port;
  role = 97 ∷ [];
  game_mode = [];
  region = [];
  shard = [];
  tags = [];
  capacity = 10;
  active_sessions = 0;
  ready = true;
  last_heartbeat_ms = 0;
}

abbrev role_selector : InstanceSelector
role_selector = record {
  all = false;
  server_ids = [];
  roles = (32 ∷ 65 ∷ []) ∷ [];
  game_modes = [];
  regions = [];
  shards = [];
  tags = [];
}

abbrev two_instances : List InstanceRecord
two_instances = instance_of (1 ∷ []) 80 ∷ instance_of (2 ∷ []) 81 ∷ []

select_instances-keep_example :
    let r = select_instances two_instances role_selector in
    (r.0 ≡ keep (is_selected role_selector) two_instances)
    × (r.1.scanned ≡ length two_instances)
    × (r.1.matched ≡ length r.0)
    × (r.1.selector_mismatch + r.1.matched ≡ r.1.scanned)
select_instances-keep_example = select_instances-keep two_instances role_selector (omega arith)

abbrev backend_calls : List Backend.Call
backend_calls =
    touches (1 ∷ []) 500
    ∷ removes (2 ∷ [])
    ∷ upserts (instance_of (2 ∷ []) 81)
    ∷ upserts (instance_of (1 ∷ []) 80)
    ∷ []

find-after_example :
    Backend.find (1 ∷ []) (Backend.after backend_calls) ≡ registered (1 ∷ []) backend_calls
find-after_example = find-after (1 ∷ []) backend_calls
