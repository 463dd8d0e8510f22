-- ===== src/Gateway/SessionDirectory/Valid.antt =====
-- What a thread of a gateway may carry, by what its client is bound to.
use knights.Base.{
  ℕ, ◌+◌, ◌*◌, ◌≡◌, ◌∙◌, ap, sym, refl, Bool, true, not, ◌&&◌, ◌||◌, Option, none, some, List, [],
  ◌∷◌, ◌++◌, ltb, is_empty, arith, Bool-cases, inl, inr,
}
use knights.Base.Texts.{same_text, same_text-eq, same_text_refl}
use knights.Base.Maps.{
  find, is_some, put, erase, find-put, find-put_other, find-erase, find-erase_same,
}
use knights.Gateway.SessionDirectory.{CacheEntry, SessionDirectory, remember, look_entry, given}
use knights.Gateway.SessionDirectory.Agreement.{holds, whole, fits}
use knights.Gateway.SessionDirectory.Threads.{
  Thread, idle, looking, getting, keeping, refreshing, setting, rereading, keeping_last, returned,
  found_none, found, after_cache, after_get, after_reread,
}

-- A binding that is there stays.
abbrev pub grows : Option (List ℕ) → Option (List ℕ) → Bool
grows none after = true
grows (some x) after = holds after x

-- A value that a thread for the client `key` carries is the one that `client` is bound to, if it is the same.
abbrev pub knows : List ℕ → Option (List ℕ) → List ℕ → List ℕ → Bool
knows client bound key x = not (same_text key client) || holds bound x

abbrev pub some_text : Option (List ℕ) → Bool
some_text none = true
some_text (some x) = not (is_empty x)

-- What a thread may carry when `client` is bound to `bound`.
abbrev pub valid : List ℕ → Option (List ℕ) → Thread → Bool
valid client bound idle = true
valid client bound (looking key wanted) = some_text wanted
valid client bound (getting key wanted) = some_text wanted
valid client bound (keeping key wanted x) = some_text wanted && knows client bound key x
valid client bound (refreshing key x) = knows client bound key x
valid client bound (setting key desired) = not (is_empty desired)
valid client bound (rereading key desired) = not (same_text key client) || is_some bound
valid client bound (keeping_last key x) = knows client bound key x
valid client bound (returned key none) = true
valid client bound (returned key (some x)) = knows client bound key x

pub knows-grows :
    (client key x : List ℕ) (bound bound' : Option (List ℕ))
    → grows bound bound' ≡ true
    → knows client bound key x ≡ true
    → knows client bound' key x ≡ true
knows-grows client key x none bound' g k = ground arith
knows-grows client key x (some y) none g k = ground arith
knows-grows client key x (some y) (some z) g k = ground (arith, same_text-eq y x, same_text-eq z y)

pub valid-grows :
    (client : List ℕ) (bound bound' : Option (List ℕ)) (t : Thread)
    → grows bound bound' ≡ true
    → valid client bound t ≡ true
    → valid client bound' t ≡ true
valid-grows client bound bound' idle g v = v
valid-grows client bound bound' (looking key wanted) g v = v
valid-grows client bound bound' (getting key wanted) g v = v
valid-grows client bound bound' (keeping key wanted x) g v =
    ground (arith, knows-grows client key x bound bound')
valid-grows client bound bound' (refreshing key x) g v = knows-grows client key x bound bound' g v
valid-grows client bound bound' (setting key desired) g v = v
valid-grows client none bound' (rereading key desired) g v = ground arith
valid-grows client (some y) none (rereading key desired) g v = ground arith
valid-grows client (some y) (some z) (rereading key desired) g v = ground arith
valid-grows client bound bound' (keeping_last key x) g v = knows-grows client key x bound bound' g v
valid-grows client bound bound' (returned key none) g v = v
valid-grows client bound bound' (returned key (some x)) g v =
    knows-grows client key x bound bound' g v

pub fits-grows :
    (bound bound' : Option (List ℕ)) (entry : Option CacheEntry)
    → grows bound bound' ≡ true
    → fits bound entry ≡ true
    → fits bound' entry ≡ true
fits-grows bound bound' none g f = ground arith
fits-grows none bound' (some e) g f = ground arith
fits-grows (some y) none (some e) g f = ground arith
fits-grows (some y) (some z) (some e) g f =
    ground (arith, same_text-eq z y, same_text-eq e.backend y)

pub grows_refl : (bound : Option (List ℕ)) → grows bound bound ≡ true
grows_refl none = refl
grows_refl (some x) = same_text_refl x

-- A gateway of the group whose cache agrees with the binding of the client.
abbrev pub Agrees : List ℕ → List ℕ → Option (List ℕ) → SessionDirectory → Type 0
Agrees prefix client bound d =
    (d.key_prefix ≡ prefix) × (d.has_redis ≡ true) × (fits bound (find client d.cache) ≡ true)

pub remember-Agrees :
    (prefix client key x : List ℕ) (bound : Option (List ℕ)) (d : SessionDirectory) (later : ℕ)
    → Agrees prefix client bound d
    → knows client bound key x ≡ true
    → Agrees prefix client bound (remember d key x later)
unfolding remember
remember-Agrees prefix client key x none d later a k =
    let entry : CacheEntry = record { backend = x; expires = later + d.ttl * 1000000000 } in
    (a.0, a.1, ap (fits none) (find-put_other key entry client d.cache (ground arith)) ∙ a.2)
remember-Agrees prefix client key x (some y) d later a k =
    let entry : CacheEntry = record { backend = x; expires = later + d.ttl * 1000000000 } in
    elim (Bool-cases (same_text key client)) [
      | inl e ↦
          let same = ap (λ c. find c (put key entry d.cache)) (sym (same_text-eq key client e)) in
          let bound_x : same_text y x ≡ true = ground arith in
          let back : same_text x y ≡ true =
            ap (λ z. same_text x z) (same_text-eq y x bound_x) ∙ same_text_refl x in
          (a.0, a.1, ap (fits (some y)) (same ∙ find-put key entry d.cache) ∙ back)
      | inr e ↦ (a.0, a.1, ap (fits (some y)) (find-put_other key entry client d.cache e) ∙ a.2)
    ]

-- What the cache or Redis gives a thread.
abbrev pub told : List ℕ → Option (List ℕ) → List ℕ → Option (List ℕ) → Bool
told client bound key none = true
told client bound key (some x) = knows client bound key x

pub fits-knows :
    (client key : List ℕ) (bound : Option (List ℕ)) (d : SessionDirectory) (e : CacheEntry)
    → find key d.cache ≡ some e
    → fits bound (find client d.cache) ≡ true
    → knows client bound key e.backend ≡ true
fits-knows client key none d e there f = elim (Bool-cases (same_text key client)) [
  | inl same ↦
      let here : find client d.cache ≡ some e =
        ap (λ c. find c d.cache) (sym (same_text-eq key client same)) ∙ there in
      let wrong : fits none (some e) ≡ true = ap (fits none) (sym here) ∙ f in ground arith
  | inr other ↦ ground arith
]
fits-knows client key (some y) d e there f = elim (Bool-cases (same_text key client)) [
  | inl same ↦
      let here : find client d.cache ≡ some e =
        ap (λ c. find c d.cache) (sym (same_text-eq key client same)) ∙ there in
      let right : fits (some y) (some e) ≡ true = ap (fits (some y)) (sym here) ∙ f in
      ground (arith, same_text-eq e.backend y, same_text_refl y)
  | inr other ↦ ground arith
]

pub look_entry-Agrees :
    (prefix client key : List ℕ) (bound : Option (List ℕ)) (d : SessionDirectory) (now : ℕ)
    (o : Option CacheEntry)
    → find key d.cache ≡ o
    → Agrees prefix client bound d
    → Agrees prefix client bound (look_entry d key now o).0
      × (told client bound key (look_entry d key now o).1 ≡ true)
look_entry-Agrees prefix client key bound d now none there a = (a, refl)
look_entry-Agrees prefix client key bound d now (some e) there a =
    elim (Bool-cases (ltb now e.expires)) [
      | inl late ↦ rw late (a, fits-knows client key bound d e there a.2)
      | inr late ↦ elim (Bool-cases (same_text key client)) [
        | inl same ↦
            let gone : find client (erase key d.cache) ≡ none =
              ap (λ c. find client (erase c d.cache)) (same_text-eq key client same)
              ∙ find-erase_same client d.cache in
            rw late ((a.0, a.1, ap (fits bound) gone), refl)
        | inr other ↦
            rw late ((a.0, a.1, ap (fits bound) (find-erase key client d.cache other) ∙ a.2), refl)
      ]
    ]

pub found-valid :
    (client key : List ℕ) (bound wanted : Option (List ℕ)) (x : List ℕ)
    → knows client bound key x ≡ true
    → valid client bound (found key wanted x) ≡ true
unfolding found
found-valid client key bound none x k = k
found-valid client key bound (some desired) x k = ground arith

pub found_none-valid :
    (client key : List ℕ) (bound wanted : Option (List ℕ))
    → some_text wanted ≡ true
    → valid client bound (found_none key wanted) ≡ true
unfolding found_none
found_none-valid client key bound none v = refl
found_none-valid client key bound (some desired) v = v

pub after_cache-valid :
    (client key : List ℕ) (bound wanted o : Option (List ℕ))
    → told client bound key o ≡ true
    → some_text wanted ≡ true
    → valid client bound (after_cache true key wanted o) ≡ true
unfolding after_cache
after_cache-valid client key bound wanted none t v = v
after_cache-valid client key bound wanted (some x) t v = found-valid client key bound wanted x t

pub after_get-valid :
    (client key : List ℕ) (bound wanted o : Option (List ℕ))
    → told client bound key o ≡ true
    → some_text wanted ≡ true
    → valid client bound (after_get key wanted o) ≡ true
unfolding after_get
after_get-valid client key bound wanted none t v = found_none-valid client key bound wanted v
after_get-valid client key bound wanted (some x) t v = ground arith

-- What Redis answers for the key of a client.
pub given-told :
    (client key : List ℕ) (bound o : Option (List ℕ))
    → (same_text key client ≡ true → o ≡ bound)
    → told client bound key (given o) ≡ true
given-told client key bound none h = refl
given-told client key none (some y) h = ground arith
given-told client key (some x) (some y) h = ground (arith, same_text_refl y)

pub after_reread-valid :
    (client key desired : List ℕ) (bound o : Option (List ℕ))
    → (same_text key client ≡ true → o ≡ bound)
    → whole bound ≡ true
    → not (same_text key client) || is_some bound ≡ true
    → valid client bound (after_reread key desired (given o)) ≡ true
unfolding after_reread
after_reread-valid client key desired none none h w v = ground arith
after_reread-valid client key desired (some x) none h w v = ground arith
after_reread-valid client key desired none (some y) h w v = ground arith
after_reread-valid client key desired (some x) (some y) h w v = ground (arith, same_text_refl y)

pub same_text-append : (p s t : List ℕ) → same_text (p ++ s) (p ++ t) ≡ same_text s t
same_text-append [] s t = refl
same_text-append (c ∷ p) s t = ground (arith, same_text-append p s t)
