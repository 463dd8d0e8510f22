-- ===== src/App/AppHost/Shutdown.antt =====
-- Histories of a host: its shutdown steps run once, the last one first.
use knights.Base.{
  List-cases, Bool-cases, ap₂, ℕ, ◌≡◌, ◌∙◌, ap, refl, Bool, true, false, List, [], ◌∷◌, ◌++◌,
  if◌then◌else◌, arith, append-nil, ◌⊎◌, inl, inr,
}
use knights.App.AppHost.{
  AppHost, LifecyclePhase, stopping, DependencyRequirement, new_host, request_stop,
  set_lifecycle_phase, set_healthy, set_ready, declare_dependency, set_dependency_ok,
  add_shutdown_step, run_shutdown_steps, on_signal, from_last,
}

pub data Call (S : Type 0) : Type 0 where
  stops : Call S
  signals : Call S
  enters : LifecyclePhase → Call S
  heals : Bool → Call S
  readies : Bool → Call S
  declares : List ℕ → DependencyRequirement → Call S
  reports : List ℕ → Bool → Call S
  adds : S → Call S

module _ {S : Type 0} where
  unfoldable pub step : AppHost S → Call S → AppHost S × List S
  step h stops = ((request_stop h).0, [])
  step h signals = on_signal h
  step h (enters phase) = (set_lifecycle_phase h phase, [])
  step h (heals healthy) = (set_healthy h healthy, [])
  step h (readies ready) = (set_ready h ready, [])
  step h (declares name requirement) = (declare_dependency h name requirement, [])
  step h (reports name is_ok) = (set_dependency_ok h name is_ok, [])
  step h (adds s) = (add_shutdown_step h s, [])

  -- The host after a history, the newest call at the head.
  unfoldable pub after : List (Call S) → AppHost S
  after [] = new_host
  after (c ∷ cs) = (step (after cs) c).0

  -- The steps that ran, in their order.
  unfoldable pub ran : List (Call S) → List S
  ran [] = []
  ran (c ∷ cs) = ran cs ++ (step (after cs) c).1

  -- The steps that a history adds, the newest at the head.
  abbrev pub added : List (Call S) → List S
  added [] = []
  added (stops ∷ cs) = added cs
  added (signals ∷ cs) = added cs
  added (enters phase ∷ cs) = added cs
  added (heals healthy ∷ cs) = added cs
  added (readies ready ∷ cs) = added cs
  added (declares name requirement ∷ cs) = added cs
  added (reports name is_ok ∷ cs) = added cs
  added (adds s ∷ cs) = s ∷ added cs

  abbrev pub has_stopped : List (Call S) → Bool
  has_stopped [] = false
  has_stopped (stops ∷ cs) = true
  has_stopped (signals ∷ cs) = true
  has_stopped (enters phase ∷ cs) = has_stopped cs
  has_stopped (heals healthy ∷ cs) = has_stopped cs
  has_stopped (readies ready ∷ cs) = has_stopped cs
  has_stopped (declares name requirement ∷ cs) = has_stopped cs
  has_stopped (reports name is_ok ∷ cs) = has_stopped cs
  has_stopped (adds s ∷ cs) = has_stopped cs

  -- What the first stop runs: nothing where `request_stop` came first, else all steps added so far.
  abbrev pub expected : List (Call S) → List S
  expected [] = []
  expected (stops ∷ cs) = expected cs
  expected (signals ∷ cs) = let before = expected cs in if has_stopped cs then before else added cs
  expected (enters phase ∷ cs) = expected cs
  expected (heals healthy ∷ cs) = expected cs
  expected (readies ready ∷ cs) = expected cs
  expected (declares name requirement ∷ cs) = expected cs
  expected (reports name is_ok ∷ cs) = expected cs
  expected (adds s ∷ cs) = expected cs

  from_last-append : (xs : List S) (s : S) → from_last (xs ++ (s ∷ [])) ≡ s ∷ from_last xs
  unfolding from_last
  from_last-append [] s = refl
  from_last-append (x ∷ xs) s = ap (λ ys. ys ++ (x ∷ [])) (from_last-append xs s)

  -- Until the first stop nothing has run, and all steps added so far wait.
  abbrev Waits : List (Call S) → AppHost S → Type 0
  Waits cs h = (h.has_shutdown_run ≡ false) × (from_last h.steps ≡ added cs)

  record Follows (cs : List (Call S)) (h : AppHost S) : Type 0 where
    flag : h.is_stop_requested ≡ has_stopped cs
    waiting : (has_stopped cs ≡ true) ⊎ Waits cs h

  run_lem :
      (h : AppHost S) → h.has_shutdown_run ≡ false → (run_shutdown_steps h).1 ≡ from_last h.steps
  unfolding run_shutdown_steps from_last
  run_lem h fresh = elim (List-cases h.steps) [
    | inl e ↦ ground (arith)
    | inr (x, xs, e) ↦ ground (arith)
  ]

  signals_stop : (h : AppHost S) → (on_signal h).0.is_stop_requested ≡ true
  unfolding on_signal request_stop run_shutdown_steps set_ready set_lifecycle_phase
  signals_stop h = ground arith

  step-Follows :
      (c : Call S) (cs : List (Call S)) (h : AppHost S)
      → Follows cs h
      → Follows (c ∷ cs) (step h c).0
  unfolding step request_stop set_lifecycle_phase set_healthy set_ready declare_dependency
      set_dependency_ok add_shutdown_step
  step-Follows stops cs h f = ground arith
  step-Follows signals cs h f = record { flag = signals_stop h; waiting = inl refl }
  step-Follows (enters phase) cs h f = ground arith
  step-Follows (heals healthy) cs h f = ground arith
  step-Follows (readies ready) cs h f = ground arith
  step-Follows (declares name requirement) cs h f = ground arith
  step-Follows (reports name is_ok) cs h f = ground arith
  step-Follows (adds s) cs h f = ground (arith, from_last-append h.steps s)

  after-Follows : (cs : List (Call S)) → Follows cs (after cs)
  unfolding after from_last
  after-Follows [] = record { flag = refl; waiting = inr (refl, refl) }
  after-Follows (c ∷ cs) = step-Follows c cs (after cs) (after-Follows cs)

  abbrev stopping_host : AppHost S → AppHost S
  stopping_host h = record h {
    is_stop_requested = true;
    lifecycle_phase = stopping;
    is_startup_ready = false;
  }

  on_signal_lem :
      (h : AppHost S)
      → (on_signal h).1
        ≡ (if h.is_stop_requested then [] else (run_shutdown_steps (stopping_host h)).1)
  unfolding on_signal request_stop set_ready set_lifecycle_phase
  on_signal_lem h = elim (Bool-cases h.is_stop_requested) [
    | inl e ↦ ground arith
    | inr e ↦ ground arith
  ]

  signal_runs :
      (cs : List (Call S)) (h : AppHost S)
      → Follows cs h
      → (on_signal h).1 ≡ (if has_stopped cs then [] else added cs)
  signal_runs cs h f = ground (arith, on_signal_lem h, run_lem (stopping_host h))

  expected_none : (cs : List (Call S)) → has_stopped cs ≡ false → expected cs ≡ []
  expected_none [] n = refl
  expected_none (stops ∷ cs) n = absurd (ground arith)
  expected_none (signals ∷ cs) n = absurd (ground arith)
  expected_none (enters phase ∷ cs) n = expected_none cs n
  expected_none (heals healthy ∷ cs) n = expected_none cs n
  expected_none (readies ready ∷ cs) n = expected_none cs n
  expected_none (declares name requirement ∷ cs) n = expected_none cs n
  expected_none (reports name is_ok ∷ cs) n = expected_none cs n
  expected_none (adds s ∷ cs) n = expected_none cs n

  chosen :
      (stopped : Bool) (before all : List S)
      → (stopped ≡ false → before ≡ [])
      → before ++ (if stopped then [] else all) ≡ (if stopped then before else all)
  chosen true before all h = append-nil before
  chosen false before all h = ap (λ xs. xs ++ all) (h refl)

  -- In every history the shutdown steps that ran are: none if there was no signal, or if `request_stop` came
  -- before the first one; else all steps that were added before the first signal, each once, the last added
  -- first.
  pub ran_lem : (cs : List (Call S)) → ran cs ≡ expected cs
  unfolding ran step
  ran_lem [] = refl
  ran_lem (stops ∷ cs) = append-nil (ran cs) ∙ ran_lem cs
  ran_lem (signals ∷ cs) =
      let before = ran_lem cs in
      let now = signal_runs cs (after cs) (after-Follows cs) in
      ap₂ ◌++◌ before now ∙ chosen (has_stopped cs) (expected cs) (added cs) (expected_none cs)
  ran_lem (enters phase ∷ cs) = append-nil (ran cs) ∙ ran_lem cs
  ran_lem (heals healthy ∷ cs) = append-nil (ran cs) ∙ ran_lem cs
  ran_lem (readies ready ∷ cs) = append-nil (ran cs) ∙ ran_lem cs
  ran_lem (declares name requirement ∷ cs) = append-nil (ran cs) ∙ ran_lem cs
  ran_lem (reports name is_ok ∷ cs) = append-nil (ran cs) ∙ ran_lem cs
  ran_lem (adds s ∷ cs) = append-nil (ran cs) ∙ ran_lem cs
