-- ===== src/State/InstanceRegistry/Selection.antt =====
-- `select_instances` against a filter of the list.
use knights.Base.{
  ℕ, ◌∙◌, refl, Bool, true, false, not, ◌&&◌, ◌||◌, if◌then◌else◌, is_empty, ◌+◌, ◌^◌, ◌≡◌, ◌≤◌,
  ◌<◌, ap, sym, List, [], ◌∷◌, ◌++◌, keep, length, append_assoc, append-nil, arith,
}
use knights.Base.Bits.{u64}
use knights.Base.Texts.{same_text}
use knights.State.InstanceRegistry.{
  InstanceRecord, InstanceSelector, SelectorMatchStats, no_stats, matches_selector, select_from,
  select_instances, has_text, normalize_token, normalize_token_set, matches_field, matches_tags,
  any_tag,
}

abbrev counted : SelectorMatchStats → SelectorMatchStats
counted stats = record stats {
  scanned = u64 (stats.scanned + 1);
  matched = u64 (stats.matched + 1);
}

abbrev missed : SelectorMatchStats → SelectorMatchStats
missed stats = record stats {
  scanned = u64 (stats.scanned + 1);
  selector_mismatch = u64 (stats.selector_mismatch + 1);
}

module _ (selector : InstanceSelector) where
  abbrev pub kept : List InstanceRecord → List InstanceRecord
  kept instances = keep (λ r. matches_selector r selector) instances

  select_from-matched :
      (instances : List InstanceRecord) (stats : SelectorMatchStats) (matched : List InstanceRecord)
      → (select_from instances selector stats matched).0 ≡ matched ++ kept instances
  unfolding select_from
  select_from-matched [] stats matched = sym (append-nil matched)
  select_from-matched (r ∷ instances) stats matched =
      let yes_stats = counted stats in
      let no_stats' = missed stats in
      let ih = select_from-matched instances yes_stats (matched ++ (r ∷ [])) in
      let ih' = select_from-matched instances no_stats' matched in
      ground (arith, ih, ih', append_assoc matched (r ∷ []) (kept instances))

  -- The counts of `stats` after the loop, where no counter wraps around.
  select_from-stats :
      (instances : List InstanceRecord) (stats : SelectorMatchStats) (matched : List InstanceRecord)
      → stats.scanned + length instances < 2 ^ 64
      → stats.matched ≤ stats.scanned
      → stats.selector_mismatch ≤ stats.scanned
      → let s = (select_from instances selector stats matched).1 in
        (s.scanned ≡ stats.scanned + length instances)
        × (s.matched ≡ stats.matched + length (kept instances))
        × (s.selector_mismatch + length (kept instances)
            ≡ stats.selector_mismatch + length instances)
  unfolding select_from
  select_from-stats [] stats matched fits m s = ground arith
  select_from-stats (r ∷ instances) stats matched fits m s =
      let ih =
        select_from-stats instances (counted stats) (matched ++ (r ∷ [])) (ground arith)
          (ground arith) (ground arith) in
      let ih' =
        select_from-stats instances (missed stats) matched (ground arith) (ground arith)
          (ground arith) in
      ground (arith, ih, ih')

-- Whether one of the filters names the value: they are the same token, which is not empty.
abbrev pub names : List ℕ → List (List ℕ) → Bool
names value [] = false
names value (f ∷ filters) =
    let token = normalize_token f in
    (not (is_empty token) && same_text (normalize_token value) token) || names value filters

-- A field with no filters takes every value.
abbrev pub takes : List ℕ → List (List ℕ) → Bool
takes value filters = is_empty filters || names value filters

abbrev pub names_any : List (List ℕ) → List (List ℕ) → Bool
names_any [] filters = false
names_any (tag ∷ tags) filters = names tag filters || names_any tags filters

-- What a selector asks for: all instances, or those that each field with filters takes, where one field at
-- least has filters.
abbrev pub is_selected : InstanceSelector → InstanceRecord → Bool
is_selected s r =
    s.all
    || (not (
          is_empty s.server_ids
          && (is_empty s.roles
              && (is_empty s.game_modes
                  && (is_empty s.regions && (is_empty s.shards && is_empty s.tags)))))
        && (takes r.instance_id s.server_ids
            && (takes r.role s.roles
                && (takes r.game_mode s.game_modes
                    && (takes r.region s.regions
                        && (takes r.shard s.shards
                            && (is_empty s.tags || names_any r.tags s.tags)))))))

names_token :
    (value : List ℕ) (filters : List (List ℕ))
    → has_text (normalize_token value) (normalize_token_set filters) ≡ names value filters
unfolding normalize_token_set
names_token value [] = refl
names_token value (f ∷ filters) = ground (arith, names_token value filters)

names_empty :
    (value : List ℕ) (filters : List (List ℕ))
    → is_empty (normalize_token_set filters) ≡ true
    → names value filters ≡ false
unfolding normalize_token_set
names_empty value [] h = refl
names_empty value (f ∷ filters) h = ground (arith, names_empty value filters)

takes-matches_field :
    (value : List ℕ) (filters : List (List ℕ)) → matches_field value filters ≡ takes value filters
unfolding matches_field
takes-matches_field value filters =
    ground (arith, names_token value filters, names_empty value filters)

names_any-any_tag :
    (tags filters : List (List ℕ))
    → any_tag tags (normalize_token_set filters) ≡ names_any tags filters
unfolding any_tag
names_any-any_tag [] filters = refl
names_any-any_tag (tag ∷ tags) filters =
    ground (arith, names_token tag filters, names_any-any_tag tags filters)

names_any_empty :
    (tags filters : List (List ℕ))
    → is_empty (normalize_token_set filters) ≡ true
    → names_any tags filters ≡ false
names_any_empty [] filters h = refl
names_any_empty (tag ∷ tags) filters h =
    ground (arith, names_empty tag filters, names_any_empty tags filters)

takes-matches_tags :
    (tags filters : List (List ℕ))
    → matches_tags tags filters ≡ (is_empty filters || names_any tags filters)
unfolding matches_tags
takes-matches_tags tags filters =
    ground (arith, names_any-any_tag tags filters, names_any_empty tags filters)

one_not :
    (a b c d e f : Bool)
    → not a || (not b || (not c || (not d || (not e || not f))))
      ≡ not (a && (b && (c && (d && (e && f)))))
one_not false b c d e f = refl
one_not true false c d e f = refl
one_not true true false d e f = refl
one_not true true true d e f = ground arith

-- Guards that return false one after the other.
guards :
    (a b c d e f : Bool)
    → (if not a
        then false
        else (if not b
            then false
            else (if not c
                then false
                else (if not d
                    then false
                    else (if not e then false else (if not f then false else true))))))
      ≡ (a && (b && (c && (d && (e && f)))))
guards false b c d e f = refl
guards true false c d e f = refl
guards true true false d e f = refl
guards true true true d e f = ground arith

first_guards :
    (all some_field rest : Bool)
    → (if all then true else (if not (all || some_field) then false else rest))
      ≡ (all || (some_field && rest))
first_guards true some_field rest = refl
first_guards false true rest = refl
first_guards false false rest = refl

is_selected-matches_selector :
    (s : InstanceSelector) (r : InstanceRecord) → matches_selector r s ≡ is_selected s r
unfolding matches_selector
is_selected-matches_selector s r =
    simp
      (
        takes-matches_field r.instance_id s.server_ids,
        takes-matches_field r.role s.roles,
        takes-matches_field r.game_mode s.game_modes,
        takes-matches_field r.region s.regions,
        takes-matches_field r.shard s.shards,
        takes-matches_tags r.tags s.tags,
        guards,
        first_guards,
        one_not,
      )
      refl

kept_selected :
    (s : InstanceSelector) (instances : List InstanceRecord)
    → kept s instances ≡ keep (is_selected s) instances
kept_selected s [] = refl
kept_selected s (r ∷ instances) =
    ground (arith, is_selected-matches_selector s r, kept_selected s instances)

-- `select_instances` returns, in their order, the instances that the selector asks for: all of them with
-- `all`, else those that every field with filters takes, where one field at least has filters. A value is
-- taken if it and one of the filters are the same token, which is not empty. With fewer than `2 ^ 64`
-- instances the statistics count all of them, the matching ones and the others.
pub select_instances-keep :
    (instances : List InstanceRecord) (selector : InstanceSelector)
    → length instances < 2 ^ 64
    → let r = select_instances instances selector in
      (r.0 ≡ keep (is_selected selector) instances)
      × (r.1.scanned ≡ length instances)
      × (r.1.matched ≡ length r.0)
      × (r.1.selector_mismatch + r.1.matched ≡ r.1.scanned)
unfolding select_instances
select_instances-keep instances selector fits =
    let found = select_from-matched selector instances no_stats [] in
    let counts =
      select_from-stats selector instances no_stats [] (ground arith) (omega arith) (omega arith) in
    let same = ap length found in
    (
      found ∙ kept_selected selector instances,
      ground (arith, counts),
      ground (arith, counts, same),
      ground (arith, counts),
    )
