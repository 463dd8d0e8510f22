-- ===== src/Gateway/SessionDirectory/Alone.antt =====
-- A call whose steps no other thread interrupts, against `ensure_backend` as one function.
use knights.Base.{
  ℕ, zero, suc, ◌≡◌, ◌∙◌, ap, sym, refl, true, false, not, Option, none, some, List, if◌then◌else◌,
  is_empty, arith, Bool-cases, inl, inr,
}
use knights.Base.Texts.{same_text, same_text-eq}
use knights.Base.Bits.{u32}
use knights.Gateway.SessionDirectory.{
  SessionDirectory, RedisClient, make_key, remember, look, given, keep_value, after_look,
  find_backend, ensure_found, ensure_current, ensure_backend,
}
use knights.Gateway.SessionDirectory.Threads.{
  Thread, returned, setting, getting, looking, keeping_last, start, found_none, found, after_cache,
  after_get, after_reread, look_step, first_step, set_step, thread_step,
}

module _ {R : Type 0} (redis : RedisClient R) (now later : ℕ) where
  -- Steps of one thread in a row.
  abbrev pub alone : ℕ → SessionDirectory → R → Thread → SessionDirectory × R × Thread
  alone zero d r t = (d, r, t)
  alone (suc n) d r t = let (d', r', t') = thread_step redis d r now later t in alone n d' r' t'

  abbrev pub end_of :
      List ℕ → SessionDirectory × R × Option (List ℕ) → SessionDirectory × R × Thread
  end_of client_id (d, r, answer) = (d, r, returned client_id answer)

  -- A call that has found a backend.
  alone-found :
      (d : SessionDirectory) (r : R) (client_id desired x : List ℕ)
      → alone 3 d r (found client_id (some desired) x)
        ≡ end_of client_id (ensure_found redis (d, some x) r client_id desired later)
  unfolding found thread_step ensure_found
  alone-found d r client_id desired x = elim (Bool-cases (same_text x desired)) [
    | inl e ↦ rw e (
        ap
          (λ y. (
            d,
            (redis.set_if_equals r (make_key d client_id) y y (u32 d.ttl)).0,
            returned client_id (some x),
          ))
          (same_text-eq x desired e))
    | inr e ↦ rw e refl
  ]

  found_again :
      (d : SessionDirectory) (r : R) (client_id desired x : List ℕ)
      → alone 5 d r (found client_id (some desired) x)
        ≡ alone 3 d r (found client_id (some desired) x)
  unfolding found thread_step
  found_again d r client_id desired x = elim (Bool-cases (same_text x desired)) [
    | inl e ↦ rw e refl
    | inr e ↦ rw e refl
  ]

  -- The end of a call whose `SET NX` did not write.
  alone-reread :
      (d : SessionDirectory) (r : R) (client_id desired : List ℕ) (o : Option (List ℕ))
      → alone 2 d r (after_reread client_id desired o)
        ≡ end_of client_id (ensure_current redis d r client_id desired later o)
  unfolding after_reread thread_step ensure_current
  alone-reread d r client_id desired none = refl
  alone-reread d r client_id desired (some x) = refl

  -- A call that has found nothing.
  alone-setting :
      (d : SessionDirectory) (r : R) (client_id desired : List ℕ)
      → alone 4 d r (setting client_id desired)
        ≡ end_of client_id (ensure_found redis (d, none) r client_id desired later)
  unfolding thread_step set_step ensure_found
  alone-setting d r client_id desired =
      let out = redis.set_if_not_exists r (make_key d client_id) desired (u32 d.ttl) in
      elim (Bool-cases out.1) [
        | inl e ↦ rw e refl
        | inr e ↦ rw e (
            alone-reread d out.0 client_id desired (given (redis.get out.0 (make_key d client_id))))
      ]

  alone-get :
      (d : SessionDirectory) (r : R) (client_id desired : List ℕ) (o : Option (List ℕ))
      → alone 4 d r (after_get client_id (some desired) o)
        ≡ end_of client_id
            (ensure_found redis (keep_value d client_id later o) r client_id desired later)
  unfolding after_get found_none keep_value
  alone-get d r client_id desired none = alone-setting d r client_id desired
  alone-get d r client_id desired (some x) =
      unfold thread_step in alone-found (remember d client_id x later) r client_id desired x

  alone-getting :
      (d : SessionDirectory) (r : R) (client_id : List ℕ) (wanted : Option (List ℕ))
      → alone 5 d r (getting client_id wanted)
        ≡ alone 4 d r (after_get client_id wanted (given (redis.get r (make_key d client_id))))
  unfolding thread_step
  alone-getting d r client_id wanted = refl

  alone-cache :
      (seen : SessionDirectory × Option (List ℕ)) (r : R) (client_id desired : List ℕ)
      → seen.0.has_redis ≡ true
      → alone 5 seen.0 r (after_cache true client_id (some desired) seen.1)
        ≡ end_of client_id
            (ensure_found redis (after_look redis seen r client_id later) r client_id desired later)
  unfolding after_cache after_look
  alone-cache (d, some x) r client_id desired h =
      found_again d r client_id desired x ∙ alone-found d r client_id desired x
  alone-cache (d, none) r client_id desired h =
      let read = redis.get r (make_key d client_id) in
      let kept =
        ap (λ b. if not b then (d, none) else keep_value d client_id later (given read)) h in
      alone-getting d r client_id (some desired)
      ∙ alone-get d r client_id desired (given read)
      ∙ ap (λ o. end_of client_id (ensure_found redis o r client_id desired later)) (sym kept)

  look-has_redis :
      (d : SessionDirectory) (client_id : List ℕ) → (look d client_id now).0.has_redis ≡ d.has_redis
  unfolding look
  look-has_redis d client_id = ground arith

  alone-looking :
      (d : SessionDirectory) (r : R) (client_id : List ℕ) (wanted : Option (List ℕ))
      → let (d', t) = first_step d client_id wanted now in
        alone 6 d r (looking client_id wanted) ≡ alone 5 d' r t
  unfolding thread_step
  alone-looking d r client_id wanted = refl

  alone-keeping_last :
      (d : SessionDirectory) (r : R) (client_id x : List ℕ)
      → alone 5 d r (keeping_last client_id x)
        ≡ (remember d client_id x later, r, returned client_id (some x))
  unfolding thread_step
  alone-keeping_last d r client_id x = refl

  first_look :
      (d : SessionDirectory) (client_id desired : List ℕ)
      → d.has_redis ≡ true
      → first_step d client_id (some desired) now ≡ (
        (look d client_id now).0,
        after_cache true client_id (some desired) (look d client_id now).1,
      )
  unfolding first_step look_step
  first_look d client_id desired h =
      let (d', cached) = look d client_id now in
      ap
        (λ b.
          if not b
          then (d, keeping_last client_id desired)
          else (d', after_cache b client_id (some desired) cached))
        h

  first_alone :
      (d : SessionDirectory) (client_id desired : List ℕ)
      → d.has_redis ≡ false
      → first_step d client_id (some desired) now ≡ (d, keeping_last client_id desired)
  unfolding first_step
  first_alone d client_id desired h = ground arith

  ensured :
      (d : SessionDirectory) (r : R) (client_id desired : List ℕ)
      → is_empty client_id ≡ false
      → is_empty desired ≡ false
      → d.has_redis ≡ true
      → ensure_backend redis d r client_id desired now later
        ≡ ensure_found redis
            (after_look redis (look d client_id now) r client_id later)
            r
            client_id
            desired
            later
  unfolding ensure_backend find_backend
  ensured d r client_id desired c w h = ground arith

  ensured_alone :
      (d : SessionDirectory) (r : R) (client_id desired : List ℕ)
      → is_empty client_id ≡ false
      → is_empty desired ≡ false
      → d.has_redis ≡ false
      → ensure_backend redis d r client_id desired now later
        ≡ (remember d client_id desired later, r, some desired)
  unfolding ensure_backend
  ensured_alone d r client_id desired c w h = ground arith

  -- A call of `ensure_backend` that no other thread interrupts ends within six steps and does what the function
  -- `ensure_backend` does.
  pub alone-ensure_backend :
      (d : SessionDirectory) (r : R) (client_id desired : List ℕ)
      → is_empty client_id ≡ false
      → is_empty desired ≡ false
      → alone 6 d r (start client_id (some desired))
        ≡ end_of client_id (ensure_backend redis d r client_id desired now later)
  alone-ensure_backend d r client_id desired c w =
      let begun : start client_id (some desired) ≡ looking client_id (some desired) =
        unfold start in rw (c, w) refl in
      ap (alone 6 d r) begun
      ∙ alone-looking d r client_id (some desired)
      ∙ elim (Bool-cases d.has_redis) [
        | inl h ↦
            ap (λ o. alone 5 o.0 r o.1) (first_look d client_id desired h)
            ∙ alone-cache (look d client_id now) r client_id desired
                (look-has_redis d client_id ∙ h)
            ∙ ap (end_of client_id) (sym (ensured d r client_id desired c w h))
        | inr h ↦
            ap (λ o. alone 5 o.0 r o.1) (first_alone d client_id desired h)
            ∙ alone-keeping_last d r client_id desired
            ∙ ap (end_of client_id) (sym (ensured_alone d r client_id desired c w h))
      ]
