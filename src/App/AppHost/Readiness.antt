-- ===== src/App/AppHost/Readiness.antt =====
-- What a host reports as ready, against the last declarations and reports of its dependencies.
use knights.Base.{
  ℕ, ◌≡◌, ◌∙◌, refl, Bool, false, Option, none, some, List, [], ◌∷◌, if◌then◌else◌, is_empty, arith,
}
use knights.Base.Texts.{same_text, apart}
use knights.App.AppHost.{
  AppHost, Entry, DependencyRequirement, required, compute_ok, missing, declare_in, set_ok_in,
  request_stop, set_lifecycle_phase, set_healthy, set_ready, declare_dependency, set_dependency_ok,
  add_shutdown_step, run_shutdown_steps, on_signal, readyz, readiness_reasons,
}
use knights.App.AppHost.Shutdown.{
  Call, stops, signals, enters, heals, readies, declares, reports, adds, after, step,
}

abbrev pub Status : Type 0
Status = Option (DependencyRequirement × Bool)

abbrev pub find : List ℕ → List Entry → Status
find name [] = none
find name (e ∷ es) =
    let rest = find name es in if same_text e.name name then some (e.requirement, e.is_ok) else rest

abbrev pub declared : DependencyRequirement → Status → Status
declared requirement none = some (requirement, false)
declared requirement (some (r, is_ok)) = some (requirement, is_ok)

abbrev pub reported : Bool → Status → Status
reported is_ok none = some (required, is_ok)
reported is_ok (some (r, b)) = some (r, is_ok)

-- What a history says of the dependency `name`.
abbrev pub status : {S : Type 0} → List ℕ → List (Call S) → Status
status name [] = none
status name (stops ∷ cs) = status name cs
status name (signals ∷ cs) = status name cs
status name (enters phase ∷ cs) = status name cs
status name (heals healthy ∷ cs) = status name cs
status name (readies ready ∷ cs) = status name cs
status name (declares key requirement ∷ cs) =
    let old = status name cs in
    if is_empty key then old else if same_text key name then declared requirement old else old
status name (reports key is_ok ∷ cs) =
    let old = status name cs in
    if is_empty key then old else if same_text key name then reported is_ok old else old
status name (adds s ∷ cs) = status name cs

find-declare_in :
    (name key : List ℕ) (r : DependencyRequirement) (es : List Entry)
    → find name (declare_in es key r)
      ≡ (if same_text key name then declared r (find name es) else find name es)
unfolding declare_in
find-declare_in name key r [] = ground arith
find-declare_in name key r (e ∷ es) =
    ground (arith, find-declare_in name key r es, apart e.name key name)

find-set_ok_in :
    (name key : List ℕ) (b : Bool) (es : List Entry)
    → find name (set_ok_in es key b)
      ≡ (if same_text key name then reported b (find name es) else find name es)
unfolding set_ok_in
find-set_ok_in name key b [] = ground arith
find-set_ok_in name key b (e ∷ es) =
    ground (arith, find-set_ok_in name key b es, apart e.name key name)

compute_ok-missing : (es : List Entry) → compute_ok es ≡ is_empty (missing es)
unfolding compute_ok missing
compute_ok-missing [] = refl
compute_ok-missing (e ∷ es) = ground (arith, compute_ok-missing es)

module _ {S : Type 0} where
  -- The flag is that of the registry, and the registry holds what the history says of `name`.
  abbrev Settled : Status → AppHost S → List ℕ → Type 0
  Settled known h name =
      (h.is_deps_ok ≡ compute_ok h.dependencies) × (find name h.dependencies ≡ known)

  after-Settled : (name : List ℕ) (cs : List (Call S)) → Settled (status name cs) (after cs) name
  unfolding after step request_stop set_lifecycle_phase set_healthy set_ready declare_dependency
      set_dependency_ok add_shutdown_step on_signal run_shutdown_steps compute_ok
  after-Settled name [] = (refl, refl)
  after-Settled name (stops ∷ cs) = ground (arith, after-Settled name cs)
  after-Settled name (signals ∷ cs) = ground (arith, after-Settled name cs)
  after-Settled name (enters phase ∷ cs) = after-Settled name cs
  after-Settled name (heals healthy ∷ cs) = after-Settled name cs
  after-Settled name (readies ready ∷ cs) = after-Settled name cs
  after-Settled name (declares key r ∷ cs) =
      ground (arith, after-Settled name cs, find-declare_in name key r (after cs).dependencies)
  after-Settled name (reports key b ∷ cs) =
      ground (arith, after-Settled name cs, find-set_ok_in name key b (after cs).dependencies)
  after-Settled name (adds s ∷ cs) = after-Settled name cs

  -- After any history the registry holds of each name its last requirement and its last report: a name that
  -- was reported first is required, one that was only declared is not ready, and an empty name is ignored.
  pub find-status :
      (name : List ℕ) (cs : List (Call S)) → find name (after cs).dependencies ≡ status name cs
  find-status name cs = (after-Settled name cs).1

  -- After any history `/readyz` answers yes exactly when the body lists no reason against it, and the host
  -- counts its dependencies as ready exactly when no required one lacks.
  pub readyz-reasons :
      (cs : List (Call S))
      → (readyz (after cs) ≡ is_empty (readiness_reasons (after cs)))
        × ((after cs).is_deps_ok ≡ is_empty (missing (after cs).dependencies))
  unfolding readiness_reasons
  readyz-reasons cs =
      let settled = (after-Settled [] cs).0 ∙ compute_ok-missing (after cs).dependencies in
      (ground (arith, settled), settled)
