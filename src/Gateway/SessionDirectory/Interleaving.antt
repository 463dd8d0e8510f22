-- ===== src/Gateway/SessionDirectory/Interleaving.antt =====
-- Gateways whose threads take their steps in any order.
use knights.Base.{
  ℕ, ◌≡◌, ◌∙◌, ap, sym, refl, subst, true, false, not, ◌&&◌, Option, none, some, List, ◌++◌,
  if◌then◌else◌, is_empty, arith, Bool-cases, inl, inr,
}
use knights.Base.Bits.{u32}
use knights.Base.Texts.{same_text, same_text-eq, same_text_refl}
use knights.Base.Maps.{find, is_some}
use knights.Gateway.SessionDirectory.{
  SessionDirectory, RedisClient, make_key, remember, look, given,
}
use knights.Gateway.SessionDirectory.Agreement.{Lasting, holds, holds-some, whole}
use knights.Gateway.SessionDirectory.Threads.{
  Thread, idle, looking, getting, keeping, refreshing, setting, rereading, keeping_last, returned,
  found, after_cache, after_get, after_reread, look_step, first_step, set_step, thread_step,
}
use knights.Gateway.SessionDirectory.Valid.{
  grows, knows, some_text, valid, fits-grows, grows_refl, Agrees, remember-Agrees,
  look_entry-Agrees, found-valid, after_cache-valid, after_get-valid, given-told,
  after_reread-valid, same_text-append,
}

module _ {R : Type 0} (redis : RedisClient R) (lasting : Lasting redis)
    (prefix client : List ℕ) where
  abbrev pub bound_in : R → Option (List ℕ)
  bound_in r = redis.get r (prefix ++ client)

  -- What a step that starts with the binding `bound` leaves.
  abbrev pub Keeps : Option (List ℕ) → SessionDirectory × R × Thread → Type 0
  Keeps bound (d, r, t) =
      (grows bound (bound_in r) ≡ true)
      × (whole (bound_in r) ≡ true)
      × Agrees prefix client (bound_in r) d
      × (valid client (bound_in r) t ≡ true)

  same_key :
      (d : SessionDirectory) (key : List ℕ)
      → d.key_prefix ≡ prefix
      → same_text (make_key d key) (prefix ++ client) ≡ same_text key client
  same_key d key e =
      ap (λ p. same_text (p ++ key) (prefix ++ client)) e ∙ same_text-append prefix key client

  get_same :
      (d : SessionDirectory) (r : R) (key : List ℕ)
      → d.key_prefix ≡ prefix
      → same_text key client ≡ true
      → redis.get r (make_key d key) ≡ bound_in r
  get_same d r key e same =
      ap (λ p. redis.get r (p ++ key)) e
      ∙ ap (λ c. redis.get r (prefix ++ c)) (same_text-eq key client same)

  -- A step that leaves Redis alone.
  unchanged :
      (d : SessionDirectory) (r : R) (t : Thread)
      → whole (bound_in r) ≡ true
      → Agrees prefix client (bound_in r) d
      → valid client (bound_in r) t ≡ true
      → Keeps (bound_in r) (d, r, t)
  unchanged d r t w a v = (grows_refl (bound_in r), w, a, v)

  look_step-Keeps :
      (d : SessionDirectory) (r : R) (key : List ℕ) (wanted : Option (List ℕ)) (now : ℕ)
      → whole (bound_in r) ≡ true
      → Agrees prefix client (bound_in r) d
      → some_text wanted ≡ true
      → let (d', t) = look_step d key wanted now in Keeps (bound_in r) (d', r, t)
  unfolding look_step look
  look_step-Keeps d r key wanted now w a v =
      let (a', t) =
        look_entry-Agrees prefix client key (bound_in r) d now (find key d.cache) refl a in
      let cached = (look d key now).1 in
      unchanged (look d key now).0 r (after_cache d.has_redis key wanted cached) w a' (
        ap (λ b. valid client (bound_in r) (after_cache b key wanted cached)) a.1
        ∙ after_cache-valid client key (bound_in r) wanted cached t v)

  first_step-Keeps :
      (d : SessionDirectory) (r : R) (key : List ℕ) (wanted : Option (List ℕ)) (now : ℕ)
      → whole (bound_in r) ≡ true
      → Agrees prefix client (bound_in r) d
      → some_text wanted ≡ true
      → let (d', t) = first_step d key wanted now in Keeps (bound_in r) (d', r, t)
  unfolding first_step
  first_step-Keeps d r key none now w a v = look_step-Keeps d r key none now w a v
  first_step-Keeps d r key (some desired) now w a v =
      let looked =
        ap
          (λ b. if not b then (d, keeping_last key desired) else look_step d key (some desired) now)
          a.1 in
      subst (λ o. Keeps (bound_in r) (o.0, r, o.1)) (sym looked)
        (look_step-Keeps d r key (some desired) now w a v)

  -- What the `SET NX` of a thread does to the binding.
  set_binding :
      (d : SessionDirectory) (r : R) (key desired : List ℕ)
      → Agrees prefix client (bound_in r) d
      → bound_in (redis.set_if_not_exists r (make_key d key) desired (u32 d.ttl)).0
        ≡ (if same_text key client && not (is_some (bound_in r)) then some desired else bound_in r)
  set_binding d r key desired a = elim (Bool-cases (same_text key client)) [
    | inl e ↦ ground (
      arith,
      lasting.not_exists_get r (make_key d key) desired (u32 d.ttl) (prefix ++ client),
      same_key d key a.0,
      get_same d r key a.0 e,
    )
    | inr e ↦ ground (
      arith,
      lasting.not_exists_get r (make_key d key) desired (u32 d.ttl) (prefix ++ client),
      same_key d key a.0,
    )
  ]

  set_valid :
      (d : SessionDirectory) (r : R) (key desired : List ℕ)
      → Agrees prefix client (bound_in r) d
      → let (r', t) = set_step redis d r key desired in valid client (bound_in r') t ≡ true
  unfolding set_step
  set_valid d r key desired a = elim (Bool-cases (same_text key client)) [
    | inl e ↦ ground (
      arith,
      lasting.not_exists_answer r (make_key d key) desired (u32 d.ttl),
      set_binding d r key desired a,
      get_same d r key a.0 e,
      same_text_refl desired,
    )
    | inr e ↦ ground (
      arith,
      lasting.not_exists_answer r (make_key d key) desired (u32 d.ttl),
      set_binding d r key desired a,
    )
  ]

  pub Agrees-grows :
      (d : SessionDirectory) (bound bound' : Option (List ℕ))
      → grows bound bound' ≡ true
      → Agrees prefix client bound d
      → Agrees prefix client bound' d
  Agrees-grows d bound bound' g a = (a.0, a.1, fits-grows bound bound' (find client d.cache) g a.2)

  set_step-Keeps :
      (d : SessionDirectory) (r : R) (key desired : List ℕ)
      → whole (bound_in r) ≡ true
      → Agrees prefix client (bound_in r) d
      → is_empty desired ≡ false
      → let (r', t) = set_step redis d r key desired in Keeps (bound_in r) (d, r', t)
  unfolding set_step
  set_step-Keeps d r key desired w a v =
      let binding = set_binding d r key desired a in
      let grown : grows (bound_in r) (bound_in (set_step redis d r key desired).0) ≡ true =
        ground (arith, binding, grows_refl (bound_in r)) in
      (
        grown,
        ground (arith, binding),
        Agrees-grows d (bound_in r) (bound_in (set_step redis d r key desired).0) grown a,
        set_valid d r key desired a,
      )

  refresh_binding :
      (d : SessionDirectory) (r : R) (key x : List ℕ)
      → Agrees prefix client (bound_in r) d
      → knows client (bound_in r) key x ≡ true
      → bound_in (redis.set_if_equals r (make_key d key) x x (u32 d.ttl)).0 ≡ bound_in r
  refresh_binding d r key x a k = elim (Bool-cases (same_text key client)) [
    | inl e ↦
        let known : holds (bound_in r) x ≡ true = ground arith in
        ground (
          arith,
          lasting.equals_get r (make_key d key) x x (u32 d.ttl) (prefix ++ client),
          same_key d key a.0,
          get_same d r key a.0 e,
          holds-some (bound_in r) x known,
        )
    | inr e ↦ ground (
      arith,
      lasting.equals_get r (make_key d key) x x (u32 d.ttl) (prefix ++ client),
      same_key d key a.0,
    )
  ]

  pub step-Keeps :
      (d : SessionDirectory) (r : R) (now later : ℕ) (t : Thread)
      → whole (bound_in r) ≡ true
      → Agrees prefix client (bound_in r) d
      → valid client (bound_in r) t ≡ true
      → Keeps (bound_in r) (thread_step redis d r now later t)
  unfolding thread_step
  step-Keeps d r now later idle w a v = unchanged d r idle w a refl
  step-Keeps d r now later (looking key wanted) w a v = first_step-Keeps d r key wanted now w a v
  step-Keeps d r now later (getting key wanted) w a v =
      unchanged d r (after_get key wanted (given (redis.get r (make_key d key)))) w a (
        after_get-valid client key (bound_in r) wanted (given (redis.get r (make_key d key)))
          (given-told client key (bound_in r) (redis.get r (make_key d key)) (get_same d r key a.0))
          v)
  step-Keeps d r now later (keeping key wanted x) w a v =
      let known : knows client (bound_in r) key x ≡ true = ground arith in
      unchanged (remember d key x later) r (found key wanted x) w
        (remember-Agrees prefix client key x (bound_in r) d later a known)
        (found-valid client key (bound_in r) wanted x known)
  step-Keeps d r now later (refreshing key x) w a v =
      let same = refresh_binding d r key x a v in
      let r' = (redis.set_if_equals r (make_key d key) x x (u32 d.ttl)).0 in
      (
        ap (grows (bound_in r)) same ∙ grows_refl (bound_in r),
        ap whole same ∙ w,
        subst (λ b. Agrees prefix client b d) (sym same) a,
        ap (λ b. knows client b key x) same ∙ v,
      )
  step-Keeps d r now later (setting key desired) w a v =
      set_step-Keeps d r key desired w a (ground arith)
  step-Keeps d r now later (rereading key desired) w a v =
      unchanged d r (after_reread key desired (given (redis.get r (make_key d key)))) w a (
        after_reread-valid client key desired (bound_in r) (redis.get r (make_key d key))
          (get_same d r key a.0) w v)
  step-Keeps d r now later (keeping_last key x) w a v =
      unchanged (remember d key x later) r (returned key (some x)) w
        (remember-Agrees prefix client key x (bound_in r) d later a v) v
  step-Keeps d r now later (returned key none) w a v = unchanged d r (returned key none) w a v
  step-Keeps d r now later (returned key (some x)) w a v =
      unchanged d r (returned key (some x)) w a v
