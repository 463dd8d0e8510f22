-- ===== src/Gateway/SessionDirectory/Store.antt =====
-- A Redis server whose keys do not expire.
use knights.Base.{
  ℕ, ◌≡◌, true, false, some, List, if◌then◌else◌, arith, subst, Bool-cases, inl, inr,
}
use knights.Base.Texts.{same_text, same_text-eq}
use knights.Base.Maps.{find, put, erase, is_some, find-put, find-put_other}
use knights.Gateway.SessionDirectory.{RedisClient}
use knights.Gateway.SessionDirectory.Agreement.{Lasting, holds}

abbrev pub Store : Type 0
Store = List (List ℕ × List ℕ)

abbrev pub in_memory : RedisClient Store
in_memory = record {
  get = λ r key. find key r;
  set_if_not_exists =
      λ r key value ttl. if is_some (find key r) then (r, false) else (put key value r, true);
  set_if_equals = λ r key expected value ttl.
      if holds (find key r) expected then (put key value r, true) else (r, false);
  del_if_equals =
      λ r key expected. if holds (find key r) expected then (erase key r, true) else (r, false);
}

find-put_any :
    (key value other : List ℕ) (r : Store)
    → find other (put key value r) ≡ (if same_text key other then some value else find other r)
find-put_any key value other r = elim (Bool-cases (same_text key other)) [
  | inl e ↦
      let there : find other (put key value r) ≡ some value =
        subst (λ k. find k (put key value r) ≡ some value) (same_text-eq key other e)
          (find-put key value r) in
      ground (arith, there)
  | inr e ↦ ground (arith, find-put_other key value other r e)
]

pub in_memory-Lasting : Lasting in_memory
in_memory-Lasting = record {
  not_exists_answer = λ r key value ttl. ground arith;
  not_exists_get = λ r key value ttl other. ground (arith, find-put_any key value other r);
  equals_get = λ r key expected value ttl other. ground (arith, find-put_any key value other r);
}
