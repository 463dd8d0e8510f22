-- ===== src/Gateway/SessionDirectory/Schedule.antt =====
-- Several gateways with one Redis, and any order in which the threads of their calls take their steps.
use knights.Base.{
  ℕ, ◌≡◌, ◌∙◌, ap, sym, true, Option, none, some, List, [], ◌∷◌, ◌++◌, ◌==◌, if◌then◌else◌, arith,
  Bool-cases, inl, inr,
}
use knights.Base.Texts.{same_text_refl}
use knights.Base.Maps.{find}
use knights.Gateway.SessionDirectory.{SessionDirectory, RedisClient}
use knights.Gateway.SessionDirectory.Agreement.{Lasting, holds-some, whole, fits}
use knights.Gateway.SessionDirectory.Threads.{
  Thread, idle, returned, looking, getting, keeping, refreshing, setting, rereading, keeping_last,
  start, thread_step,
}
use knights.Gateway.SessionDirectory.Valid.{knows, valid, valid-grows, Agrees}
use knights.Gateway.SessionDirectory.Interleaving.{step-Keeps, Agrees-grows, bound_in}

-- The gateways, Redis, and a thread for each call.
pub record Group (R : Type 0) : Type 0 where
  pub directories : ℕ → SessionDirectory
  pub server : R
  pub threads : ℕ → Thread

-- A thread begins its call, of `ensure_backend` if a backend is desired, or takes its next step.
pub data Event : Type 0 where
  begins : ℕ → List ℕ → Option (List ℕ) → Event
  steps : ℕ → ℕ → ℕ → Event

abbrev pub change_at : {A : Type 0} → (ℕ → A) → ℕ → A → ℕ → A
change_at f j x i = if i == j then x else f i

abbrev pub begin : Thread → List ℕ → Option (List ℕ) → Thread
begin idle client_id wanted = start client_id wanted
begin t client_id wanted = t

module _ {R : Type 0} (redis : RedisClient R) (home : ℕ → ℕ) where
  -- The thread `j` runs on the gateway `home j`.
  unfoldable pub happens : Group R → Event → Group R
  happens g (begins j client_id wanted) = record g {
    threads = change_at g.threads j (begin (g.threads j) client_id wanted);
  }
  happens g (steps j now later) =
      let (d, r, t) = thread_step redis (g.directories (home j)) g.server now later (g.threads j) in
      record {
        directories = change_at g.directories (home j) d;
        server = r;
        threads = change_at g.threads j t;
      }

  -- The group after a history of events, the newest at the head.
  unfoldable pub after : Group R → List Event → Group R
  after g [] = g
  after g (e ∷ es) = happens (after g es) e

  module _ (lasting : Lasting redis) (prefix client : List ℕ) where
    record Sound (g : Group R) : Type 0 where
      is_whole : whole (bound_in redis lasting prefix client g.server) ≡ true
      agree :
          (i : ℕ)
          → Agrees prefix client (bound_in redis lasting prefix client g.server) (g.directories i)
      carry :
          (j : ℕ)
          → valid client (bound_in redis lasting prefix client g.server) (g.threads j) ≡ true

    begin-valid :
        (bound wanted : Option (List ℕ)) (key : List ℕ) (t : Thread)
        → valid client bound t ≡ true
        → valid client bound (begin t key wanted) ≡ true
    unfolding start
    begin-valid bound none key idle v = ground arith
    begin-valid bound (some desired) key idle v = ground arith
    begin-valid bound wanted key (looking k w) v = v
    begin-valid bound wanted key (getting k w) v = v
    begin-valid bound wanted key (keeping k w x) v = v
    begin-valid bound wanted key (refreshing k x) v = v
    begin-valid bound wanted key (setting k x) v = v
    begin-valid bound wanted key (rereading k x) v = v
    begin-valid bound wanted key (keeping_last k x) v = v
    begin-valid bound wanted key (returned k x) v = v

    change_both :
        {A : Type 0} (P : A → Type 0) (f : ℕ → A) (j i : ℕ) (x : A)
        → P x
        → P (f i)
        → P (change_at f j x i)
    change_both P f j i x p q = elim (Bool-cases (i == j)) [ inl e ↦ rw e p | inr e ↦ rw e q ]

    happens-Sound : (g : Group R) (e : Event) → Sound g → Sound (happens g e)
    unfolding happens
    happens-Sound g (begins j key wanted) s = record {
      is_whole = s.is_whole;
      agree = s.agree;
      carry = λ i.
          change_both (λ t. valid client (bound_in redis lasting prefix client g.server) t ≡ true)
            g.threads j i (begin (g.threads j) key wanted)
            (begin-valid (bound_in redis lasting prefix client g.server) wanted key (g.threads j)
              (s.carry j))
            (s.carry i);
    }
    happens-Sound g (steps j now later) s =
        let bound = bound_in redis lasting prefix client g.server in
        let out = thread_step redis (g.directories (home j)) g.server now later (g.threads j) in
        let bound' = bound_in redis lasting prefix client out.1 in
        let (grown, w, a, v) =
          step-Keeps redis lasting prefix client (g.directories (home j)) g.server now later
            (g.threads j) s.is_whole (s.agree (home j)) (s.carry j) in
        record {
          is_whole = w;
          agree = λ i. change_both (Agrees prefix client bound') g.directories (home j) i out.0 a (
              Agrees-grows redis lasting prefix client (g.directories i) bound bound' grown
                (s.agree i));
          carry = λ i.
              change_both (λ t. valid client bound' t ≡ true) g.threads j i out.2 v
                (valid-grows client bound bound' (g.threads i) grown (s.carry i));
        }

    after-Sound : (g : Group R) (es : List Event) → Sound g → Sound (after g es)
    unfolding after
    after-Sound g [] s = s
    after-Sound g (e ∷ es) s = happens-Sound (after g es) e (after-Sound g es s)

    -- Gateways with Redis and one prefix that have cached nothing, before any call.
    pub record IsFresh (g : Group R) : Type 0 where
      pub is_whole : whole (redis.get g.server (prefix ++ client)) ≡ true
      pub same_prefix : (i : ℕ) → (g.directories i).key_prefix ≡ prefix
      pub has_server : (i : ℕ) → (g.directories i).has_redis ≡ true
      pub no_entry : (i : ℕ) → (g.directories i).cache ≡ []
      pub no_call : (j : ℕ) → g.threads j ≡ idle

    IsFresh-Sound : (g : Group R) → IsFresh g → Sound g
    IsFresh-Sound g f = record {
      is_whole = f.is_whole;
      agree = λ i. (
        f.same_prefix i,
        f.has_server i,
        ap (λ c. fits (bound_in redis lasting prefix client g.server) (find client c))
            (f.no_entry i),
      );
      carry = λ j. ap (valid client (bound_in redis lasting prefix client g.server)) (f.no_call j);
    }

    answer-bound :
        (g : Group R) (j : ℕ) (x : List ℕ)
        → Sound g
        → g.threads j ≡ returned client (some x)
        → redis.get g.server (prefix ++ client) ≡ some x
    answer-bound g j x s e =
        let bound = redis.get g.server (prefix ++ client) in
        let known : knows client bound client x ≡ true =
          ap (valid client bound) (sym e) ∙ s.carry j in
        holds-some bound x (ground (arith, same_text_refl client))

    some_injective : (o : Option (List ℕ)) (x y : List ℕ) → o ≡ some x → o ≡ some y → x ≡ y
    some_injective o x y p q = ground arith

    -- Gateways of one prefix share a Redis that can be reached and whose keys do not expire, and make no calls but
    -- `find_backend` and `ensure_backend`. Whatever the calls are, for this client and others, and however the steps
    -- of their threads interleave, also between the look into the cache, the `SET NX` and the read behind it: when
    -- two calls for a client have returned a backend, it is the same one, and it is what Redis holds.
    pub answers_agree :
        (g : Group R) (es : List Event) (j k : ℕ) (x y : List ℕ)
        → IsFresh g
        → (after g es).threads j ≡ returned client (some x)
        → (after g es).threads k ≡ returned client (some y)
        → (x ≡ y) × (redis.get (after g es).server (prefix ++ client) ≡ some x)
    answers_agree g es j k x y f p q =
        let s = after-Sound g es (IsFresh-Sound g f) in
        let first = answer-bound (after g es) j x s p in
        let second = answer-bound (after g es) k y s q in
        (some_injective (redis.get (after g es).server (prefix ++ client)) x y first second, first)
