-- ===== src/App/AppHost.antt =====
-- `AppHost` of core/src/app/app_host.cpp and its header: the flags of a process, its dependencies and its
-- shutdown steps. A name is the list of its bytes. The atomics and mutexes make each call one step; the HTTP
-- server, the logs and the metric texts are left out.
pub mod Readiness
pub mod Shutdown
use knights.Base.{
  ℕ, Bool, true, false, not, ◌&&◌, ◌||◌, List, [], ◌∷◌, ◌++◌, if◌then◌else◌, is_empty,
}
use knights.Base.Texts.{same_text}

pub data LifecyclePhase : Type 0 where
  starting_up bootstrapping running stopping stopped failed : LifecyclePhase

pub data DependencyRequirement : Type 0 where
  required optional : DependencyRequirement

-- `DependencyRegistry::Entry`
pub record Entry : Type 0 where
  pub name : List ℕ
  pub requirement : DependencyRequirement
  pub is_ok : Bool

-- `S` is the type of a shutdown step. `termination_received` is the flag of the process that the signal
-- handlers set. A registry that is not allocated yet is an empty one.
pub record AppHost (S : Type 0) : Type 0 where
  pub is_stop_requested : Bool
  pub termination_received : Bool
  pub lifecycle_phase : LifecyclePhase
  pub is_healthy : Bool
  pub is_startup_ready : Bool
  pub is_deps_ok : Bool
  pub has_shutdown_run : Bool
  pub dependencies : List Entry
  pub steps : List S

abbrev pub is_required : DependencyRequirement → Bool
is_required required = true
is_required optional = false

unfoldable pub compute_ok : List Entry → Bool
compute_ok [] = true
compute_ok (e ∷ es) =
    let rest = compute_ok es in if is_required e.requirement && not e.is_ok then false else rest

-- The loop of `declare_dependency`, and the entry that it adds where it finds none.
unfoldable pub declare_in : List Entry → List ℕ → DependencyRequirement → List Entry
declare_in [] name requirement =
    record { name = name; requirement = requirement; is_ok = false } ∷ []
declare_in (e ∷ es) name requirement =
    let rest = declare_in es name requirement in
    if same_text e.name name then record e { requirement = requirement } ∷ es else e ∷ rest

unfoldable pub set_ok_in : List Entry → List ℕ → Bool → List Entry
set_ok_in [] name is_ok = record { name = name; requirement = required; is_ok = is_ok } ∷ []
set_ok_in (e ∷ es) name is_ok =
    let rest = set_ok_in es name is_ok in
    if same_text e.name name then record e { is_ok = is_ok } ∷ es else e ∷ rest

-- The names of the required dependencies that are not ready.
unfoldable pub missing : List Entry → List (List ℕ)
missing [] = []
missing (e ∷ es) =
    let rest = missing es in
    if is_required e.requirement && not e.is_ok then e.name ∷ rest else rest

-- The lines of the health body, and the reasons of the readiness body.
pub data HealthBody : Type 0 where
  health_ok health_stopping health_unhealthy : HealthBody

pub data Reason : Type 0 where
  is_stopping is_unhealthy is_starting : Reason
  deps : List (List ℕ) → Reason

-- The loop over the steps from the last one to the first; an exception of a step is caught.
unfoldable pub from_last {ℓ} : {S : Type ℓ} → List S → List S
from_last [] = []
from_last (s ∷ steps) = from_last steps ++ (s ∷ [])

module _ {S : Type 0} where
  abbrev pub new_host : AppHost S
  new_host = record {
    is_stop_requested = false;
    termination_received = false;
    lifecycle_phase = starting_up;
    is_healthy = true;
    is_startup_ready = false;
    is_deps_ok = true;
    has_shutdown_run = false;
    dependencies = [];
    steps = [];
  }

  unfoldable pub set_lifecycle_phase : AppHost S → LifecyclePhase → AppHost S
  set_lifecycle_phase h phase = record h { lifecycle_phase = phase }

  unfoldable pub request_stop : AppHost S → AppHost S × Bool
  unfolding set_lifecycle_phase
  request_stop h =
      if h.is_stop_requested
      then (h, false)
      else (set_lifecycle_phase (record h { is_stop_requested = true }) stopping, true)

  abbrev pub stop_requested : AppHost S → Bool
  stop_requested h = h.is_stop_requested || h.termination_received

  unfoldable pub set_healthy : AppHost S → Bool → AppHost S
  set_healthy h healthy = record h { is_healthy = healthy }

  unfoldable pub set_ready : AppHost S → Bool → AppHost S
  set_ready h ready = record h { is_startup_ready = ready }

  abbrev pub ready : AppHost S → Bool
  ready h = h.is_startup_ready && h.is_deps_ok

  abbrev pub with_dependencies : AppHost S → List Entry → AppHost S
  with_dependencies h entries = record h { dependencies = entries; is_deps_ok = compute_ok entries }

  unfoldable pub declare_dependency : AppHost S → List ℕ → DependencyRequirement → AppHost S
  declare_dependency h name requirement =
      if is_empty name then h else with_dependencies h (declare_in h.dependencies name requirement)

  unfoldable pub set_dependency_ok : AppHost S → List ℕ → Bool → AppHost S
  set_dependency_ok h name is_ok =
      if is_empty name then h else with_dependencies h (set_ok_in h.dependencies name is_ok)

  -- The callbacks of `/healthz` and `/readyz`.
  abbrev pub healthz : AppHost S → Bool
  healthz h = h.is_healthy && not (stop_requested h)

  abbrev pub readyz : AppHost S → Bool
  readyz h = ready h && (h.is_healthy && not (stop_requested h))

  unfoldable pub health_body : AppHost S → Bool → HealthBody
  health_body h is_ok =
      if is_ok then health_ok else if stop_requested h then health_stopping else health_unhealthy

  -- The reasons of a body that says "not ready".
  unfoldable pub readiness_reasons : AppHost S → List Reason
  readiness_reasons h =
      let lacking = if h.is_deps_ok then [] else missing h.dependencies in
      (if stop_requested h then is_stopping ∷ [] else [])
      ++ ((if not h.is_healthy then is_unhealthy ∷ [] else [])
          ++ ((if not h.is_startup_ready then is_starting ∷ [] else [])
              ++ (if is_empty lacking then [] else deps lacking ∷ [])))

  unfoldable pub add_shutdown_step : AppHost S → S → AppHost S
  add_shutdown_step h step = record h { steps = h.steps ++ (step ∷ []) }

  -- The host and the steps that run, in their order.
  unfoldable pub run_shutdown_steps : AppHost S → AppHost S × List S
  unfolding from_last
  run_shutdown_steps h =
      if h.has_shutdown_run
      then (h, [])
      else (if is_empty h.steps
          then (record h { has_shutdown_run = true }, [])
          else (record h { has_shutdown_run = true; steps = [] }, from_last h.steps))

  -- The handler of the signals, without the callback that it runs at the end.
  unfoldable pub on_signal : AppHost S → AppHost S × List S
  unfolding set_ready run_shutdown_steps request_stop
  on_signal h =
      let (h', first) = request_stop h in
      if first then run_shutdown_steps (set_ready h' false) else (h', [])
