-- ===== src/State/InstanceRegistry/Backend.antt =====
-- The backend in memory as a map from identifiers to records.
use knights.Base.{
  ℕ, ◌≡◌, ◌∙◌, ap, sym, refl, true, Option, none, some, List, [], ◌∷◌, if◌then◌else◌, Bool-cases,
  inl, inr, arith,
}
use knights.Base.Texts.{same_text, same_text-eq, same_text_sym, apart}
use knights.State.InstanceRegistry.{InstanceRecord, Records, upsert, remove, touch}

abbrev pub find : List ℕ → Records → Option InstanceRecord
find id [] = none
find id ((key, r) ∷ records) =
    let rest = find id records in if same_text key id then some r else rest

pub data Call : Type 0 where
  upserts : InstanceRecord → Call
  removes : List ℕ → Call
  touches : List ℕ → ℕ → Call

-- The map after a history, the newest call at the head.
unfoldable pub after : List Call → Records
after [] = []
after (upserts r ∷ cs) = upsert (after cs) r
after (removes id ∷ cs) = (remove (after cs) id).0
after (touches id ms ∷ cs) = (touch (after cs) id ms).0

abbrev pub beat : ℕ → Option InstanceRecord → Option InstanceRecord
beat ms none = none
beat ms (some r) = some (record r { last_heartbeat_ms = ms })

-- What a history makes of one identifier.
abbrev pub registered : List ℕ → List Call → Option InstanceRecord
registered id [] = none
registered id (upserts r ∷ cs) =
    let old = registered id cs in if same_text r.instance_id id then some r else old
registered id (removes key ∷ cs) =
    let old = registered id cs in if same_text key id then none else old
registered id (touches key ms ∷ cs) =
    let old = registered id cs in if same_text key id then beat ms old else old

-- No identifier stands twice.
abbrev pub IsUnique : Records → Type 0
IsUnique [] = true ≡ true
IsUnique ((key, r) ∷ records) = (find key records ≡ none) × IsUnique records

find_same :
    (s t : List ℕ) (records : Records) → same_text s t ≡ true → find t records ≡ find s records
find_same s t records h = ap (λ x. find x records) (sym (same_text-eq s t h))

find-upsert :
    (id : List ℕ) (r : InstanceRecord) (records : Records)
    → find id (upsert records r) ≡ (if same_text r.instance_id id then some r else find id records)
unfolding upsert
find-upsert id r [] = refl
find-upsert id r ((key, old) ∷ records) =
    ground (arith, find-upsert id r records, apart key r.instance_id id)

find-touch :
    (id key : List ℕ) (ms : ℕ) (records : Records)
    → find id (touch records key ms).0
      ≡ (if same_text key id then beat ms (find id records) else find id records)
unfolding touch
find-touch id key ms [] = ground arith
find-touch id key ms ((k, old) ∷ records) =
    ground (arith, find-touch id key ms records, apart k key id)

find-remove :
    (id key : List ℕ) (records : Records)
    → IsUnique records
    → find id (remove records key).0 ≡ (if same_text key id then none else find id records)
unfolding remove
find-remove id key [] u = ground arith
find-remove id key ((k, old) ∷ records) u =
    ground (arith, find-remove id key records u.1, u.0, apart k key id, find_same k id records)

upsert-IsUnique :
    (r : InstanceRecord) (records : Records) → IsUnique records → IsUnique (upsert records r)
unfolding upsert
upsert-IsUnique r [] u = (refl, refl)
upsert-IsUnique r ((key, old) ∷ records) (new, u) =
    elim (Bool-cases (same_text key r.instance_id)) [
      | inl e ↦ rw e (new, u)
      | inr e ↦ rw e (
        find-upsert key r records ∙ ground (arith, same_text_sym key r.instance_id),
        upsert-IsUnique r records u,
      )
    ]

touch-IsUnique :
    (id : List ℕ) (ms : ℕ) (records : Records) → IsUnique records → IsUnique (touch records id ms).0
unfolding touch
touch-IsUnique id ms [] u = u
touch-IsUnique id ms ((key, old) ∷ records) (new, u) = elim (Bool-cases (same_text key id)) [
  | inl e ↦ rw e (new, u)
  | inr e ↦ rw e (
    find-touch key id ms records ∙ ground (arith, same_text_sym key id),
    touch-IsUnique id ms records u,
  )
]

remove-IsUnique :
    (id : List ℕ) (records : Records) → IsUnique records → IsUnique (remove records id).0
unfolding remove
remove-IsUnique id [] u = u
remove-IsUnique id ((key, old) ∷ records) (new, u) = elim (Bool-cases (same_text key id)) [
  | inl e ↦ rw e u
  | inr e ↦ rw e (
    find-remove key id records u ∙ ground (arith, same_text_sym key id),
    remove-IsUnique id records u,
  )
]

after-IsUnique : (cs : List Call) → IsUnique (after cs)
unfolding after
after-IsUnique [] = refl
after-IsUnique (upserts r ∷ cs) = upsert-IsUnique r (after cs) (after-IsUnique cs)
after-IsUnique (removes id ∷ cs) = remove-IsUnique id (after cs) (after-IsUnique cs)
after-IsUnique (touches id ms ∷ cs) = touch-IsUnique id ms (after cs) (after-IsUnique cs)

-- After any history the backend holds under an identifier what the last `upsert` of it stored, with the
-- heartbeat of the last `touch` since, and nothing if it was never stored or was removed since. Calls on
-- other identifiers do not count.
pub find-after : (id : List ℕ) (cs : List Call) → find id (after cs) ≡ registered id cs
unfolding after
find-after id [] = refl
find-after id (upserts r ∷ cs) = find-upsert id r (after cs) ∙ ground (arith, find-after id cs)
find-after id (removes key ∷ cs) =
    find-remove id key (after cs) (after-IsUnique cs) ∙ ground (arith, find-after id cs)
find-after id (touches key ms ∷ cs) = find-touch id key ms (after cs) ∙ rw (find-after id cs) refl
