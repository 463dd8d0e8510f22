-- ===== src/Gateway/Routing/Sticky.antt =====
-- A client that connects again, to any gateway.
use knights.Base.{
  ℕ, zero, suc, ◌≡◌, ◌∙◌, ap, sym, subst, refl, Bool, true, false, ◌&&◌, Option, none, some, List,
  [], ◌∷◌, ◌++◌, is_empty, get_elem?, arith,
}
use knights.Base.Texts.{same_text, same_text_refl}
use knights.State.InstanceRegistry.{InstanceRecord}
use knights.Gateway.SessionDirectory.{SessionDirectory, RedisClient, find_backend}
use knights.Gateway.SessionDirectory.Agreement.{
  Lasting, Good, binds, find_backend-Good, ensure_backend-Leaves,
}
use knights.Gateway.Routing.{
  SelectedBackend, is_known, find_ready, least_connections, unbound, select_bound, select_known,
  select_best_server, on_backend_connected,
}
use knights.Gateway.Routing.Choice.{Least, least_connections-Least}

-- The choice of an instance with the id, as the one that the client is bound to.
abbrev pub is_bound_to : List ℕ → Option SelectedBackend → Bool
is_bound_to id none = false
is_bound_to id (some (x, is_sticky)) = same_text x.instance_id id && is_sticky

abbrev finds_id : List ℕ → Option InstanceRecord → Bool
finds_id id none = false
finds_id id (some y) = same_text y.instance_id id

finds_id-find_ready :
    (xs : List InstanceRecord) (x : InstanceRecord) (i : ℕ)
    → get_elem? xs i ≡ some x
    → x.ready ≡ true
    → finds_id x.instance_id (find_ready x.instance_id xs) ≡ true
unfolding find_ready
finds_id-find_ready [] x i h k = ground arith
finds_id-find_ready (y ∷ ys) x zero h k =
    let same_record : y ≡ x = cc in
    let same_id : same_text y.instance_id x.instance_id ≡ true =
      ap (λ z. same_text z.instance_id x.instance_id) same_record ∙ same_text_refl x.instance_id in
    let same_ready = ap (λ z. z.ready) same_record in ground arith
finds_id-find_ready (y ∷ ys) x (suc i) h k = ground (arith, finds_id-find_ready ys x i h k)

unbound-some :
    (o : Option InstanceRecord) (x : InstanceRecord) → unbound o ≡ some (x, false) → o ≡ some x
unbound-some none x h = ground arith
unbound-some (some y) x h = let same : y ≡ x = cc in ap some same

-- A gateway that agrees with a binding agrees with what `ensure_backend` makes of it.
Good-binds :
    (prefix client desired : List ℕ) (bound : Option (List ℕ)) (d : SessionDirectory)
    → Good prefix client bound d
    → Good prefix client (binds bound desired) d
Good-binds prefix client desired none d good = (good.0, good.1, ground (arith, good.2))
Good-binds prefix client desired (some x) d good = good

module _ {R : Type 0} (redis : RedisClient R) (lasting : Lasting redis)
    (prefix client : List ℕ) where
  select-unbound :
      (d : SessionDirectory) (r : R) (xs : List InstanceRecord) (now later : ℕ)
      → is_known client ≡ true
      → redis.get r (prefix ++ client) ≡ none
      → Good prefix client none d
      → let out = select_best_server redis d r client (some xs) now later in
        Good prefix client none out.0
        × (redis.get out.1 (prefix ++ client) ≡ none)
        × (out.2 ≡ unbound (least_connections none xs))
  unfolding select_best_server select_known least_connections
  select-unbound d r [] now later known kept good = (good, kept, refl)
  select-unbound d r (x ∷ xs) now later known kept good =
      let (good', answer) =
        find_backend-Good redis prefix client none d r now later (ground arith) kept refl good in
      let found = find_backend redis d r client now later in
      let used : select_best_server redis d r client (some (x ∷ xs)) now later
          ≡ select_known redis (found.0, none) r client (x ∷ xs) =
        ground (arith, answer) in
      let kind : SessionDirectory × R × Option SelectedBackend → Type 0 = λ out.
        Good prefix client none out.0
        × (redis.get out.1 (prefix ++ client) ≡ none)
        × (out.2 ≡ unbound (least_connections none (x ∷ xs))) in
      subst kind (sym used) (good', kept, refl)

  select-bound :
      (d : SessionDirectory) (r : R) (x : InstanceRecord) (xs : List InstanceRecord)
      (i now later : ℕ)
      → is_known client ≡ true
      → redis.get r (prefix ++ client) ≡ some x.instance_id
      → Good prefix client (some x.instance_id) d
      → is_empty x.instance_id ≡ false
      → get_elem? xs i ≡ some x
      → x.ready ≡ true
      → is_bound_to x.instance_id (select_best_server redis d r client (some xs) now later).2 ≡ true
  unfolding select_best_server select_known select_bound
  select-bound d r x [] i now later known kept good some_id there is_ready = ground arith
  select-bound d r x (y ∷ ys) i now later known kept good some_id there is_ready =
      let id = x.instance_id in
      let (good', answer) =
        find_backend-Good redis prefix client (some id) d r now later (ground arith) kept
          (ground arith) good in
      let found = find_backend redis d r client now later in
      let used : select_best_server redis d r client (some (y ∷ ys)) now later
          ≡ select_bound redis found.0 r client (y ∷ ys) id (find_ready id (y ∷ ys)) =
        ground (arith, answer) in
      let found_id = finds_id-find_ready (y ∷ ys) x i there is_ready in
      let chosen : is_bound_to id
            (select_bound redis found.0 r client (y ∷ ys) id (find_ready id (y ∷ ys))).2
          ≡ true =
        ground (arith, found_id) in
      ap (λ out. is_bound_to id out.2) used ∙ chosen

  on_backend_connected-Leaves :
      (d : SessionDirectory) (r : R) (id : List ℕ) (now later : ℕ)
      → is_known client ≡ true
      → is_empty id ≡ false
      → redis.get r (prefix ++ client) ≡ none
      → Good prefix client none d
      → redis.get (on_backend_connected redis d r client id now later).1 (prefix ++ client)
        ≡ some id
  unfolding on_backend_connected
  on_backend_connected-Leaves d r id now later known some_id kept good =
      let (good', there, answer) =
        ensure_backend-Leaves redis lasting prefix client id none d r now later (ground arith)
          some_id kept refl good in
      simp (known, some_id) there

  -- While Redis can be reached and no key expires: when a known client is bound to no backend, a gateway selects
  -- the instance `x` for it without a binding and connects to it, then each gateway with the same prefix whose
  -- cache says nothing of the client selects, from the same instances, one with the id of `x` as its binding.
  pub select_best_server-on_backend_connected :
      (d e : SessionDirectory) (r : R) (x : InstanceRecord) (xs : List InstanceRecord)
      (t t' u u' v v' : ℕ)
      → is_known client ≡ true
      → redis.get r (prefix ++ client) ≡ none
      → Good prefix client none d
      → Good prefix client none e
      → (select_best_server redis d r client (some xs) t t').2 ≡ some (x, false)
      → let out = select_best_server redis d r client (some xs) t t' in
        let connected = on_backend_connected redis out.0 out.1 client x.instance_id u u' in
        is_bound_to x.instance_id (select_best_server redis e connected.1 client (some xs) v v').2
        ≡ true
  select_best_server-on_backend_connected d e r x xs t t' u u' v v' known kept good good_e
        selected =
      let (good', kept', choice) = select-unbound d r xs t t' known kept good in
      let out = select_best_server redis d r client (some xs) t t' in
      let least = unbound-some (least_connections none xs) x (sym choice ∙ selected) in
      let ((i, there), eligible, fewest) = subst (Least xs) least (least_connections-Least xs) in
      let some_id : is_empty x.instance_id ≡ false = ground arith in
      let is_ready : x.ready ≡ true = ground arith in
      let bound =
        on_backend_connected-Leaves out.0 out.1 x.instance_id u u' known some_id kept' good' in
      let r' = (on_backend_connected redis out.0 out.1 client x.instance_id u u').1 in
      select-bound e r' x xs i v v' known bound
        (Good-binds prefix client x.instance_id none e good_e) some_id there is_ready
