-- ===== src/Gateway/RudpRolloutPolicy/Allowlist.antt =====
-- Lists of tokens that are written with commas.
use knights.Base.{
  ℕ, zero, suc, ◌≤◌, ◌≡◌, ◌∙◌, ap, refl, Bool, true, false, not, ◌&&◌, ◌||◌, Option, none, some,
  List, [], ◌∷◌, ◌++◌, ◌==◌, elem, length, length-append, arith,
}
use knights.Gateway.RudpRolloutPolicy.{
  cut, insert, allowlist_from, parse_rudp_opcode_allowlist, parse_u16_token,
}

-- Tokens with commas between them.
abbrev pub join : List ℕ → List (List ℕ) → List ℕ
join t [] = t
join t (u ∷ ts) = t ++ (44 ∷ join u ts)

abbrev pub is_opcode : ℕ → Option ℕ → Bool
is_opcode opcode none = false
is_opcode opcode (some n) = opcode == n

-- Whether a token reads as the opcode.
abbrev pub is_listed : ℕ → List (List ℕ) → Bool
is_listed opcode [] = false
is_listed opcode (t ∷ ts) = is_opcode opcode (parse_u16_token t) || is_listed opcode ts

abbrev pub no_commas : List (List ℕ) → Bool
no_commas [] = true
no_commas (t ∷ ts) = not (elem 44 t) && no_commas ts

cut-token : (t cs : List ℕ) → elem 44 t ≡ false → cut (t ++ (44 ∷ cs)) ≡ (t, some cs)
cut-token [] cs h = refl
cut-token (c ∷ t) cs h = ground (arith, cut-token t cs)

cut-last : (t : List ℕ) → elem 44 t ≡ false → cut t ≡ (t, none)
cut-last [] h = refl
cut-last (c ∷ t) h = ground (arith, cut-last t)

elem-insert :
    (opcode : ℕ) (o : Option ℕ) (out : List ℕ)
    → elem opcode (insert o out) ≡ is_opcode opcode o || elem opcode out
elem-insert opcode none out = refl
elem-insert opcode (some n) out =
    let same : (opcode ≡ n → elem opcode out ≡ elem n out) = λ e. ap (λ k. elem k out) e in
    ground (arith, same)

last_round :
    (opcode fuel : ℕ) (out : List ℕ) → elem opcode (allowlist_from fuel out none) ≡ elem opcode out
unfolding allowlist_from
last_round opcode zero out = refl
last_round opcode (suc fuel) out = refl

elem-allowlist_from :
    (opcode fuel : ℕ) (out t : List ℕ) (ts : List (List ℕ))
    → no_commas (t ∷ ts) ≡ true
    → length ts ≤ fuel
    → elem opcode (allowlist_from (suc fuel) out (some (join t ts)))
      ≡ is_listed opcode (t ∷ ts) || elem opcode out
unfolding allowlist_from
elem-allowlist_from opcode fuel out t [] h k =
    let whole : cut t ≡ (t, none) = cut-last t (ground arith) in
    let used =
      ap (λ p. elem opcode (allowlist_from fuel (insert (parse_u16_token p.0) out) p.1)) whole in
    used
    ∙ last_round opcode fuel (insert (parse_u16_token t) out)
    ∙ ground (arith, elem-insert opcode (parse_u16_token t) out)
elem-allowlist_from opcode zero out t (u ∷ ts) h k = ground arith
elem-allowlist_from opcode (suc fuel) out t (u ∷ ts) h k =
    let split : cut (t ++ (44 ∷ join u ts)) ≡ (t, some (join u ts)) =
      cut-token t (join u ts) (ground arith) in
    let used =
      ap (λ p. elem opcode (allowlist_from (suc fuel) (insert (parse_u16_token p.0) out) p.1))
        split in
    let others : no_commas (u ∷ ts) ≡ true = ground arith in
    let rest =
      elem-allowlist_from opcode fuel (insert (parse_u16_token t) out) u ts others (omega arith) in
    used ∙ rest ∙ ground (arith, elem-insert opcode (parse_u16_token t) out)

length-join : (t : List ℕ) (ts : List (List ℕ)) → length ts ≤ length (join t ts)
length-join t [] = omega arith
length-join t (u ∷ ts) = omega (arith, length-join u ts, length-append t (44 ∷ join u ts))

-- Parsing tokens that are written with commas between them, and have none, allows exactly the opcodes that one
-- of the tokens reads as.
pub elem-parse_rudp_opcode_allowlist :
    (opcode : ℕ) (t : List ℕ) (ts : List (List ℕ))
    → no_commas (t ∷ ts) ≡ true
    → elem opcode (parse_rudp_opcode_allowlist (join t ts)) ≡ is_listed opcode (t ∷ ts)
unfolding parse_rudp_opcode_allowlist
elem-parse_rudp_opcode_allowlist opcode t ts h =
    elem-allowlist_from opcode (length (join t ts)) [] t ts h (length-join t ts) ∙ ground arith
