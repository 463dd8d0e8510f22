-- ===== src/Gateway/Routing/Choice.antt =====
-- What the loop over the instances chooses.
use knights.Base.{
  ℕ, suc, ◌≡◌, refl, Bool, true, false, not, ◌&&◌, ◌||◌, Option, none, some, List, [], ◌∷◌, leb,
  if◌then◌else◌, get_elem?, arith, Bool-cases, inl, inr, ◌⊎◌, ap, sym,
}
use knights.State.InstanceRegistry.{InstanceRecord}
use knights.Gateway.Routing.{is_eligible, is_fewer, least_connections}

-- The instance is not eligible or has at least `n` sessions.
abbrev pub no_fewer : ℕ → InstanceRecord → Bool
no_fewer n x = not (is_eligible x) || leb n x.active_sessions

abbrev pub all_of : (InstanceRecord → Bool) → List InstanceRecord → Bool
all_of p [] = true
all_of p (x ∷ xs) = let rest = all_of p xs in if p x then rest else false

-- An eligible instance of the list with the fewest sessions, or none where there is no eligible one.
abbrev pub Least : List InstanceRecord → Option InstanceRecord → Type 0
Least xs none = all_of (λ x. not (is_eligible x)) xs ≡ true
Least xs (some best) =
    ((i : ℕ) × (get_elem? xs i ≡ some best))
    × (is_eligible best ≡ true)
    × (all_of (no_fewer best.active_sessions) xs ≡ true)

-- What the rest of the loop does with the instance `x` that is selected so far.
abbrev Improves : InstanceRecord → List InstanceRecord → Option InstanceRecord → Type 0
Improves x xs none = false ≡ true
Improves x xs (some best) =
    ((best ≡ x) ⊎ ((i : ℕ) × (get_elem? xs i ≡ some best)))
    × (is_eligible best ≡ true)
    × (leb best.active_sessions x.active_sessions ≡ true)
    × (all_of (no_fewer best.active_sessions) xs ≡ true)

shift :
    (x y best : InstanceRecord) (ys : List InstanceRecord)
    → (best ≡ y) ⊎ ((i : ℕ) × (get_elem? ys i ≡ some best))
    → (i : ℕ) × (get_elem? (y ∷ ys) i ≡ some best)
shift x y best ys (inl p) = (0, ap some (sym p))
shift x y best ys (inr (i, p)) = (suc i, p)

taken-Improves :
    (x y : InstanceRecord) (ys : List InstanceRecord) (o : Option InstanceRecord)
    → is_fewer y (some x) ≡ true
    → Improves y ys o
    → Improves x (y ∷ ys) o
taken-Improves x y ys none h k = k
taken-Improves x y ys (some best) h (place, q, l, a) =
    (inr (shift x y best ys place), q, ground arith, ground arith)

skipped-Improves :
    (x y : InstanceRecord) (ys : List InstanceRecord) (o : Option InstanceRecord)
    → is_eligible y && is_fewer y (some x) ≡ false
    → Improves x ys o
    → Improves x (y ∷ ys) o
skipped-Improves x y ys none h k = k
skipped-Improves x y ys (some best) h (inl p, q, l, a) = (inl p, q, l, ground arith)
skipped-Improves x y ys (some best) h (inr (i, p), q, l, a) = (inr (suc i, p), q, l, ground arith)

least_connections-Improves :
    (x : InstanceRecord) (xs : List InstanceRecord)
    → is_eligible x ≡ true
    → Improves x xs (least_connections (some x) xs)
unfolding least_connections
least_connections-Improves x [] h = (inl refl, h, ground arith, refl)
least_connections-Improves x (y ∷ ys) h = elim (Bool-cases (is_eligible y && is_fewer y (some x))) [
  | inl e ↦ simp e (
      taken-Improves x y ys (least_connections (some y) ys) (ground arith)
        (least_connections-Improves y ys (ground arith)))
  | inr e ↦ simp e (
      skipped-Improves x y ys (least_connections (some x) ys) e (least_connections-Improves x ys h))
]

first-Least :
    (x : InstanceRecord) (xs : List InstanceRecord) (o : Option InstanceRecord)
    → Improves x xs o
    → Least (x ∷ xs) o
first-Least x xs none h = ground arith
first-Least x xs (some best) (place, q, l, a) = (shift x x best xs place, q, ground arith)

skipped-Least :
    (x : InstanceRecord) (xs : List InstanceRecord) (o : Option InstanceRecord)
    → is_eligible x ≡ false
    → Least xs o
    → Least (x ∷ xs) o
skipped-Least x xs none h k = ground arith
skipped-Least x xs (some best) h ((i, p), q, a) = ((suc i, p), q, ground arith)

-- The loop selects an eligible instance of the list (ready, with an id, a host and a port) that has the fewest
-- sessions of the eligible ones, and none only where no instance is eligible.
pub least_connections-Least : (xs : List InstanceRecord) → Least xs (least_connections none xs)
unfolding least_connections
least_connections-Least [] = refl
least_connections-Least (x ∷ xs) = elim (Bool-cases (is_eligible x)) [
  | inl e ↦
      simp e (first-Least x xs (least_connections (some x) xs) (least_connections-Improves x xs e))
  | inr e ↦ simp e (skipped-Least x xs (least_connections none xs) e (least_connections-Least xs))
]
