-- ===== src/Gateway/SessionDirectory/Agreement.antt =====
-- A directory and Redis after a call for a client, by what the client is bound to.
use knights.Base.{
  ℕ, ◌+◌, ◌*◌, ◌≡◌, ◌∙◌, sym, ap, refl, subst, Bool, true, false, not, ◌&&◌, Option, none, some,
  List, ◌++◌, ltb, if◌then◌else◌, is_empty, arith, Bool-cases, inl, inr, ◌⊎◌,
}
use knights.Base.Texts.{same_text, same_text_refl, same_text-eq}
use knights.Base.Maps.{find, is_some, find-put, find-erase_same}
use knights.Gateway.SessionDirectory.{
  CacheEntry, SessionDirectory, RedisClient, make_key, remember, look, look_entry, given,
  keep_value, after_look, find_backend, ensure_found, ensure_current, ensure_backend, u32,
}

abbrev pub holds : Option (List ℕ) → List ℕ → Bool
holds none expected = false
holds (some x) expected = same_text x expected

pub holds-some : (o : Option (List ℕ)) (x : List ℕ) → holds o x ≡ true → o ≡ some x
holds-some none x h = ground arith
holds-some (some y) x h = ap some (same_text-eq y x h)

-- What Redis promises while it can be reached and no key expires.
pub record Lasting {R : Type 0} (redis : RedisClient R) : Type 0 where
  pub not_exists_answer :
      (r : R) (key value : List ℕ) (ttl : ℕ)
      → (redis.set_if_not_exists r key value ttl).1 ≡ not (is_some (redis.get r key))
  pub not_exists_get :
      (r : R) (key value : List ℕ) (ttl : ℕ) (other : List ℕ)
      → redis.get (redis.set_if_not_exists r key value ttl).0 other ≡ (
          if same_text key other && not (is_some (redis.get r key))
          then some value
          else redis.get r other)
  pub equals_get :
      (r : R) (key expected value : List ℕ) (ttl : ℕ) (other : List ℕ)
      → redis.get (redis.set_if_equals r key expected value ttl).0 other ≡ (
          if same_text key other && holds (redis.get r key) expected
          then some value
          else redis.get r other)

abbrev pub whole : Option (List ℕ) → Bool
whole none = true
whole (some x) = not (is_empty x)

abbrev pub fits : Option (List ℕ) → Option CacheEntry → Bool
fits bound none = true
fits none (some e) = false
fits (some x) (some e) = same_text e.backend x

-- A gateway of the group with the prefix, whose cache says nothing else of the client than `bound`.
abbrev pub Good : List ℕ → List ℕ → Option (List ℕ) → SessionDirectory → Type 0
Good prefix client bound d =
    (d.key_prefix ≡ prefix) × (d.has_redis ≡ true) × (fits bound (find client d.cache) ≡ true)

pub fits-some :
    (bound : Option (List ℕ)) (e : CacheEntry) → fits bound (some e) ≡ true → some e.backend ≡ bound
fits-some none e h = ground arith
fits-some (some x) e h = ap some (same_text-eq e.backend x h)

look_entry-Good :
    (prefix client : List ℕ) (bound : Option (List ℕ)) (d : SessionDirectory) (now : ℕ)
    (o : Option CacheEntry)
    → find client d.cache ≡ o
    → Good prefix client bound d
    → Good prefix client bound (look_entry d client now o).0
      × (((look_entry d client now o).1 ≡ none) ⊎ ((look_entry d client now o).1 ≡ bound))
look_entry-Good prefix client bound d now none found good = (good, inl refl)
look_entry-Good prefix client bound d now (some e) found good =
    elim (Bool-cases (ltb now e.expires)) [
      | inl late ↦
          let fit : fits bound (some e) ≡ true = ap (fits bound) (sym found) ∙ good.2 in
          rw late (good, inr (fits-some bound e fit))
      | inr late ↦
          rw late ((good.0, good.1, ap (fits bound) (find-erase_same client d.cache)), inl refl)
    ]

given-whole : (bound : Option (List ℕ)) → whole bound ≡ true → given bound ≡ bound
given-whole none h = refl
given-whole (some x) h = ground arith

remember-Good :
    (prefix client x : List ℕ) (bound : Option (List ℕ)) (d : SessionDirectory) (later : ℕ)
    → Good prefix client bound d
    → Good prefix client (some x) (remember d client x later)
unfolding remember
remember-Good prefix client x bound d later good =
    let entry : CacheEntry = record { backend = x; expires = later + d.ttl * 1000000000 } in
    (good.0, good.1, ap (fits (some x)) (find-put client entry d.cache) ∙ same_text_refl x)

keep_value-Good :
    (prefix client : List ℕ) (bound : Option (List ℕ)) (d : SessionDirectory) (later : ℕ)
    → Good prefix client bound d
    → Good prefix client bound (keep_value d client later bound).0
      × ((keep_value d client later bound).1 ≡ bound)
unfolding keep_value
keep_value-Good prefix client none d later good = (good, refl)
keep_value-Good prefix client (some x) d later good =
    (remember-Good prefix client x (some x) d later good, refl)

-- What `ensure_backend` binds.
abbrev pub binds : Option (List ℕ) → List ℕ → Option (List ℕ)
binds bound desired = if is_some bound then bound else some desired

module _ {R : Type 0} (redis : RedisClient R) where
  after_look-Good :
      (prefix client : List ℕ) (bound : Option (List ℕ)) (seen : SessionDirectory × Option (List ℕ))
      (r : R) (later : ℕ)
      → redis.get r (prefix ++ client) ≡ bound
      → whole bound ≡ true
      → Good prefix client bound seen.0
      → (seen.1 ≡ none) ⊎ (seen.1 ≡ bound)
      → Good prefix client bound (after_look redis seen r client later).0
        × ((after_look redis seen r client later).1 ≡ bound)
  unfolding after_look
  after_look-Good prefix client bound (d, some x) r later kept w good (inl e) = ground arith
  after_look-Good prefix client bound (d, some x) r later kept w good (inr e) = (good, e)
  after_look-Good prefix client bound (d, none) r later kept w good e =
      let value : given (redis.get r (make_key d client)) ≡ bound =
        ap (λ p. given (redis.get r (p ++ client))) good.0 ∙ ap given kept ∙ given-whole bound w in
      let answer = redis.get r (make_key d client) in
      let used =
        ap (λ b. if not b then (d, none) else keep_value d client later (given answer)) good.1
        ∙ ap (keep_value d client later) value in
      subst (λ o. Good prefix client bound o.0 × (o.1 ≡ bound)) (sym used)
        (keep_value-Good prefix client bound d later good)

  pub find_backend-Good :
      (prefix client : List ℕ) (bound : Option (List ℕ)) (d : SessionDirectory) (r : R)
      (now later : ℕ)
      → is_empty client ≡ false
      → redis.get r (prefix ++ client) ≡ bound
      → whole bound ≡ true
      → Good prefix client bound d
      → Good prefix client bound (find_backend redis d r client now later).0
        × ((find_backend redis d r client now later).1 ≡ bound)
  unfolding find_backend look
  find_backend-Good prefix client bound d r now later some_client kept w good =
      let (good', answer) =
        look_entry-Good prefix client bound d now (find client d.cache) refl good in
      rw some_client
        (after_look-Good prefix client bound (look d client now) r later kept w good' answer)

  module _ (lasting : Lasting redis) where
    -- What a call leaves of a directory and of Redis, and its answer.
    abbrev pub Leaves :
        List ℕ → List ℕ → Option (List ℕ) → SessionDirectory × R × Option (List ℕ) → Type 0
    Leaves prefix client bound out =
        Good prefix client bound out.0
        × (redis.get out.1 (prefix ++ client) ≡ bound)
        × (out.2 ≡ bound)

    equals_keeps :
        (r : R) (key value : List ℕ) (ttl : ℕ) (other : List ℕ)
        → redis.get (redis.set_if_equals r key value value ttl).0 other ≡ redis.get r other
    equals_keeps r key value ttl other = elim (Bool-cases (same_text key other)) [
      | inl e ↦ elim (Bool-cases (holds (redis.get r key) value)) [
        | inl h ↦
            let same = ap (redis.get r) (same_text-eq key other e) in
            let value_there = holds-some (redis.get r key) value h in
            ground (arith, lasting.equals_get r key value value ttl other)
        | inr h ↦ ground (arith, lasting.equals_get r key value value ttl other)
      ]
      | inr e ↦ ground (arith, lasting.equals_get r key value value ttl other)
    ]

    ensure_found-Leaves :
        (prefix client desired : List ℕ) (bound : Option (List ℕ)) (d : SessionDirectory) (r : R)
        (later : ℕ)
        → redis.get r (prefix ++ client) ≡ bound
        → whole bound ≡ true
        → Good prefix client bound d
        → Leaves prefix client
            (binds bound desired)
            (ensure_found redis (d, bound) r client desired later)
    unfolding ensure_found ensure_current
    ensure_found-Leaves prefix client desired none d r later kept w good =
        let key = prefix ++ client in
        let same_key : make_key d client ≡ key = ap (λ p. p ++ client) good.0 in
        let r' = (redis.set_if_not_exists r key desired (u32 d.ttl)).0 in
        let used : ensure_found redis (d, none) r client desired later
            ≡ (remember d client desired later, r', some desired) =
          ground (arith, lasting.not_exists_answer r key desired (u32 d.ttl)) in
        let stored : redis.get r' key ≡ some desired =
          ground
            (arith, lasting.not_exists_get r key desired (u32 d.ttl) key, same_text_refl key) in
        subst (Leaves prefix client (some desired)) (sym used)
          (remember-Good prefix client desired none d later good, stored, refl)
    ensure_found-Leaves prefix client desired (some x) d r later kept w good =
        let key = make_key d client in
        let still = equals_keeps r key desired (u32 d.ttl) (prefix ++ client) ∙ kept in
        ground (arith, still)

    pub ensure_backend-Leaves :
        (prefix client desired : List ℕ) (bound : Option (List ℕ)) (d : SessionDirectory) (r : R)
        (now later : ℕ)
        → is_empty client ≡ false
        → is_empty desired ≡ false
        → redis.get r (prefix ++ client) ≡ bound
        → whole bound ≡ true
        → Good prefix client bound d
        → Leaves prefix client
            (binds bound desired)
            (ensure_backend redis d r client desired now later)
    unfolding ensure_backend
    ensure_backend-Leaves prefix client desired bound d r now later some_client some_desired kept w
          good =
        let (good', answer) =
          find_backend-Good prefix client bound d r now later some_client kept w good in
        let found = find_backend redis d r client now later in
        let used : ensure_backend redis d r client desired now later
            ≡ ensure_found redis (found.0, bound) r client desired later =
          ground (arith, good.1, answer) in
        subst (Leaves prefix client (binds bound desired)) (sym used)
          (ensure_found-Leaves prefix client desired bound found.0 r later kept w good')
