-- ===== src/State/InstanceRegistry.antt =====
-- core/src/state/instance_registry.cpp: selectors over the registered server instances and the backend in
-- memory. A string is the list of its bytes; `isspace` and `tolower` are those of the C locale. The hash
-- map is an association list, whose order `list_instances` shows and no caller may rely on.
pub mod Tokens
pub mod Selection
pub mod Backend
use knights.Base.{
  ℕ, ◌+◌, ◌-◌, Bool, true, false, not, ◌&&◌, ◌||◌, Option, none, some, List, [], ◌∷◌, ◌++◌, ltb,
  leb, ◌==◌, if◌then◌else◌, is_empty, elem, ℕ_discrete,
}
use knights.Base.Bits.{u64}
use knights.Base.Texts.{same_text}

pub record InstanceRecord : Type 0 where
  pub instance_id : List ℕ
  pub host : List ℕ
  pub port : ℕ
  pub role : List ℕ
  pub game_mode : List ℕ
  pub region : List ℕ
  pub shard : List ℕ
  pub tags : List (List ℕ)
  pub capacity : ℕ
  pub active_sessions : ℕ
  pub ready : Bool
  pub last_heartbeat_ms : ℕ

pub record InstanceSelector : Type 0 where
  pub all : Bool
  pub server_ids : List (List ℕ)
  pub roles : List (List ℕ)
  pub game_modes : List (List ℕ)
  pub regions : List (List ℕ)
  pub shards : List (List ℕ)
  pub tags : List (List ℕ)

pub record SelectorMatchStats : Type 0 where
  pub scanned : ℕ
  pub matched : ℕ
  pub selector_mismatch : ℕ

abbrev pub has_text : List ℕ → List (List ℕ) → Bool
has_text x [] = false
has_text x (y ∷ ys) = let rest = has_text x ys in if same_text x y then true else rest

abbrev pub is_space : ℕ → Bool
is_space c = c == 32 || (leb 9 c && leb c 13)

abbrev pub to_lower : ℕ → ℕ
to_lower c = if leb 65 c && leb c 90 then c + 32 else c

-- The first loop of `normalize_token`, and the second.
unfoldable pub trim_begin : List ℕ → List ℕ
trim_begin [] = []
trim_begin (c ∷ cs) = let rest = trim_begin cs in if is_space c then rest else c ∷ cs

unfoldable pub trim_end : List ℕ → List ℕ
trim_end [] = []
trim_end (c ∷ cs) = let rest = trim_end cs in if is_empty rest && is_space c then [] else c ∷ rest

-- Its third loop.
abbrev pub lower : List ℕ → List ℕ
lower [] = []
lower (c ∷ cs) = to_lower c ∷ lower cs

unfoldable pub normalize_token : List ℕ → List ℕ
normalize_token value = lower (trim_end (trim_begin value))

-- The set, as the list of its insertions.
unfoldable pub normalize_token_set : List (List ℕ) → List (List ℕ)
normalize_token_set [] = []
normalize_token_set (value ∷ values) =
    let rest = normalize_token_set values in
    if is_empty (normalize_token value) then rest else normalize_token value ∷ rest

unfoldable pub matches_field : List ℕ → List (List ℕ) → Bool
matches_field value filters =
    if is_empty filters
    then true
    else (if is_empty (normalize_token_set filters)
        then false
        else has_text (normalize_token value) (normalize_token_set filters))

any_tag : List (List ℕ) → List (List ℕ) → Bool
any_tag [] selector_tags = false
any_tag (tag ∷ tags) selector_tags =
    let rest = any_tag tags selector_tags in
    if has_text (normalize_token tag) selector_tags then true else rest

unfoldable pub matches_tags : List (List ℕ) → List (List ℕ) → Bool
unfolding any_tag
matches_tags record_tags selector_tags =
    if is_empty selector_tags
    then true
    else (if is_empty (normalize_token_set selector_tags)
        then false
        else any_tag record_tags (normalize_token_set selector_tags))

abbrev pub has_at_least_one_selector_field : InstanceSelector → Bool
has_at_least_one_selector_field s =
    s.all
    || (not (is_empty s.server_ids)
        || (not (is_empty s.roles)
            || (not (is_empty s.game_modes)
                || (not (is_empty s.regions)
                    || (not (is_empty s.shards) || not (is_empty s.tags))))))

unfoldable pub matches_selector : InstanceRecord → InstanceSelector → Bool
matches_selector r s =
    if s.all
    then true
    else (if not (has_at_least_one_selector_field s)
        then false
        else (if not (matches_field r.instance_id s.server_ids)
            then false
            else (if not (matches_field r.role s.roles)
                then false
                else (if not (matches_field r.game_mode s.game_modes)
                    then false
                    else (if not (matches_field r.region s.regions)
                        then false
                        else (if not (matches_field r.shard s.shards)
                            then false
                            else (if not (matches_tags r.tags s.tags) then false else true)))))))

pub data SelectorPolicyLayer : Type 0 where
  global_layer : SelectorPolicyLayer
  game_mode_layer : SelectorPolicyLayer
  region_layer : SelectorPolicyLayer
  shard_layer : SelectorPolicyLayer
  server_layer : SelectorPolicyLayer

unfoldable pub classify_selector_policy_layer : InstanceSelector → SelectorPolicyLayer
classify_selector_policy_layer s =
    if s.all
    then global_layer
    else (if not (is_empty s.server_ids)
        then server_layer
        else (if not (is_empty s.shards)
            then shard_layer
            else (if not (is_empty s.regions)
                then region_layer
                else (if not (is_empty s.game_modes) then game_mode_layer else global_layer))))

abbrev pub no_stats : SelectorMatchStats
no_stats = record { scanned = 0; matched = 0; selector_mismatch = 0 }

-- The loop of `select_instances`, with the statistics and the matches so far.
unfoldable pub select_from :
    List InstanceRecord
    → InstanceSelector
    → SelectorMatchStats
    → List InstanceRecord
    → List InstanceRecord × SelectorMatchStats
select_from [] selector stats matched = (matched, stats)
select_from (r ∷ instances) selector stats matched =
    if matches_selector r selector
    then select_from instances selector
        (record stats { scanned = u64 (stats.scanned + 1); matched = u64 (stats.matched + 1) })
        (matched ++ (r ∷ []))
    else select_from instances selector
        (record stats {
          scanned = u64 (stats.scanned + 1);
          selector_mismatch = u64 (stats.selector_mismatch + 1);
        })
        matched

unfoldable pub select_instances :
    List InstanceRecord → InstanceSelector → List InstanceRecord × SelectorMatchStats
unfolding select_from
select_instances instances selector = select_from instances selector no_stats []

-- `records_` of the backend in memory.
abbrev pub Records : Type 0
Records = List (List ℕ × InstanceRecord)

unfoldable pub upsert : Records → InstanceRecord → Records
upsert [] r = (r.instance_id, r) ∷ []
upsert ((id, old) ∷ records) r =
    let rest = upsert records r in
    if same_text id r.instance_id then (id, r) ∷ records else (id, old) ∷ rest

unfoldable pub remove : Records → List ℕ → Records × Bool
remove [] instance_id = ([], false)
remove ((id, old) ∷ records) instance_id =
    let rest = remove records instance_id in
    if same_text id instance_id then (records, true) else ((id, old) ∷ rest.0, rest.1)

unfoldable pub touch : Records → List ℕ → ℕ → Records × Bool
touch [] instance_id heartbeat_ms = ([], false)
touch ((id, old) ∷ records) instance_id heartbeat_ms =
    let rest = touch records instance_id heartbeat_ms in
    if same_text id instance_id
    then ((id, record old { last_heartbeat_ms = heartbeat_ms }) ∷ records, true)
    else ((id, old) ∷ rest.0, rest.1)

unfoldable pub list_instances : Records → List InstanceRecord
list_instances [] = []
list_instances ((id, r) ∷ records) = r ∷ list_instances records
