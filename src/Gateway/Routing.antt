-- ===== src/Gateway/Routing.antt =====
-- The choice of a backend in gateway/src/gateway_app.cpp: `select_best_server` and `on_backend_connected`. The
-- registry is the list that `list_instances` returns, `none` for a gateway without one.
pub mod Choice
pub mod Sticky
use knights.Base.{
  ℕ, Bool, true, false, not, ◌&&◌, ◌||◌, Option, none, some, List, [], ◌∷◌, ltb, ◌==◌,
  if◌then◌else◌, is_empty,
}
use knights.Base.Texts.{same_text}
use knights.State.InstanceRegistry.{InstanceRecord}
use knights.Gateway.SessionDirectory.{
  SessionDirectory, RedisClient, find_backend, release_backend, ensure_backend,
}

-- The record and whether the client is bound to it.
abbrev pub SelectedBackend : Type 0
SelectedBackend = InstanceRecord × Bool

-- "anonymous"
abbrev pub anonymous : List ℕ
anonymous = 97 ∷ 110 ∷ 111 ∷ 110 ∷ 121 ∷ 109 ∷ 111 ∷ 117 ∷ 115 ∷ []

abbrev pub is_known : List ℕ → Bool
is_known client_id = not (is_empty client_id) && not (same_text client_id anonymous)

-- The `find_if` of the bound backend.
unfoldable pub find_ready : List ℕ → List InstanceRecord → Option InstanceRecord
find_ready id [] = none
find_ready id (x ∷ xs) =
    let rest = find_ready id xs in if same_text x.instance_id id && x.ready then some x else rest

-- The conditions under which the loop does not skip an instance.
abbrev pub is_eligible : InstanceRecord → Bool
is_eligible x =
    x.ready && (not (is_empty x.instance_id) && (not (is_empty x.host) && not (x.port == 0)))

abbrev pub is_fewer : InstanceRecord → Option InstanceRecord → Bool
is_fewer x none = true
is_fewer x (some best) = ltb x.active_sessions best.active_sessions

-- The loop over the instances, with the one selected so far.
unfoldable pub least_connections :
    Option InstanceRecord → List InstanceRecord → Option InstanceRecord
least_connections selected [] = selected
least_connections selected (x ∷ xs) =
    let kept = least_connections selected xs in
    let taken = least_connections (some x) xs in
    if is_eligible x && is_fewer x selected then taken else kept

abbrev pub unbound : Option InstanceRecord → Option SelectedBackend
unbound none = none
unbound (some x) = some (x, false)

module _ {R : Type 0} (redis : RedisClient R) where
  -- The part on the binding, with the answer of `find_backend`, and the choice after it.
  unfoldable pub select_bound :
      SessionDirectory
      → R
      → List ℕ
      → List InstanceRecord
      → List ℕ
      → Option InstanceRecord
      → SessionDirectory × R × Option SelectedBackend
  select_bound d r client_id instances backend_id (some x) = (d, r, some (x, true))
  select_bound d r client_id instances backend_id none =
      let (d', r') = release_backend redis d r client_id backend_id in
      (d', r', unbound (least_connections none instances))

  unfoldable pub select_known :
      SessionDirectory × Option (List ℕ)
      → R
      → List ℕ
      → List InstanceRecord
      → SessionDirectory × R × Option SelectedBackend
  select_known (d, none) r client_id instances = (d, r, unbound (least_connections none instances))
  select_known (d, some backend_id) r client_id instances =
      select_bound d r client_id instances backend_id (find_ready backend_id instances)

  -- With a session directory.
  unfoldable pub select_best_server :
      SessionDirectory
      → R
      → List ℕ
      → Option (List InstanceRecord)
      → ℕ
      → ℕ
      → SessionDirectory × R × Option SelectedBackend
  select_best_server d r client_id none now later = (d, r, none)
  select_best_server d r client_id (some instances) now later =
      if is_empty instances
      then (d, r, none)
      else (if is_known client_id
          then select_known (find_backend redis d r client_id now later) r client_id instances
          else (d, r, unbound (least_connections none instances)))

  unfoldable pub on_backend_connected :
      SessionDirectory → R → List ℕ → List ℕ → ℕ → ℕ → SessionDirectory × R
  on_backend_connected d r client_id backend_id now later =
      let (d', r', bound) = ensure_backend redis d r client_id backend_id now later in
      if not (is_known client_id) then (d, r) else if is_empty backend_id then (d, r) else (d', r')
