-- ===== src/Environment/Graph/Invariant.antt =====
-- The well-formedness of an `EnvironmentGraph`, and that every method keeps it.
use ipa_diagnose.Base.{
  suc, ◌≤◌, ◌≡◌, refl, String, Bool, true, false, ◌||◌, not, Option, none, some, List, [], ◌∷◌,
  arith, leb, ◌==◌, ◌⊎◌, length, All, All-mono, contains, string_eq, option_eq, pair_eq, Bool-cases,
  Option-cases, inl, inr,
}
use ipa_diagnose.Base.Dict.{
  Dict, get, put, has, get-put, length-put, length-put_new, length-put_old, All-get, All-put,
}
use ipa_diagnose.Base.Value.{Value, null, value_eq}
use ipa_diagnose.TextSafe.{sanitize_text}
use ipa_diagnose.TextSafe.Scan.{Unicode}
use ipa_diagnose.Environment.Types.{
  Kind, Rel, State, established, unknown, contradicted, Enumeration, kind_eq, rel_eq, Entity, Fact,
  Relation, Enumerated, Dropped, FactKey, RelationKey, EnvironmentGraph, Result, ok, raise,
  max_entities, max_facts, max_relations, ref, sources, targets, empty,
}
use ipa_diagnose.Environment.Graph.{
  add_entity, add_fact, add_relation, set_enumeration, merge_fact, merge_states, kind_in, settled,
  clean, reported,
}

abbrev pub is_null : Value → Bool
is_null null = true
is_null _ = false

-- An established fact has a value, and no value that conflicts with it.
abbrev pub IsSettled : State → Value → List Value → Type 0
IsSettled established value conflicting = (is_null value ≡ false) × (conflicting ≡ [])
IsSettled _ value conflicting = Unit

abbrev pub EntityAt : String → Entity → Type 0
EntityAt r e = r ≡ ref e.kind e.key

abbrev pub FactAt : Dict String Entity → FactKey → Fact → Type 0
FactAt d k f =
    (k ≡ (f.subject, (f.name, f.observed_from)))
    × ((has d f.subject ≡ true) × IsSettled f.state f.value f.conflicting)

abbrev pub RelationAt : Dict String Entity → RelationKey → Relation → Type 0
RelationAt d k r =
    (k ≡ (r.kind, (r.src, r.dst)))
    × ((has d r.src ≡ true)
        × ((has d r.dst ≡ true)
            × ((kind_in r.src (sources r.kind) ≡ true) × (kind_in r.dst (targets r.kind) ≡ true))))

pub record IsWellFormed (g : EnvironmentGraph) : Type 0 where
  pub few_entities : length g.entities ≤ max_entities
  pub few_facts : length g.facts ≤ max_facts
  pub few_relations : length g.relations ≤ max_relations
  pub entity_at : All (λ e. EntityAt e.0 e.1) g.entities
  pub fact_at : All (λ e. FactAt g.entities e.0 e.1) g.facts
  pub relation_at : All (λ e. RelationAt g.entities e.0 e.1) g.relations

pub IsWellFormed-empty : IsWellFormed empty
IsWellFormed-empty = record {
  few_entities = omega arith;
  few_facts = omega arith;
  few_relations = omega arith;
  entity_at = tt;
  fact_at = tt;
  relation_at = tt;
}

has-put :
    (d : Dict String Entity) (r j : String) (e : Entity) → has d j ≡ true → has (put d r e) j ≡ true
unfolding has
has-put d r j e h = rw (get-put d r j e) (ground arith)

-- More entities leave what holds of the facts and the relations.
FactAt-put :
    (d : Dict String Entity) (r : String) (e : Entity) (x : FactKey × Fact)
    → FactAt d x.0 x.1
    → FactAt (put d r e) x.0 x.1
FactAt-put d r e x h = (h.0, (has-put d r x.1.subject e h.1.0, h.1.1))

RelationAt-put :
    (d : Dict String Entity) (r : String) (e : Entity) (x : RelationKey × Relation)
    → RelationAt d x.0 x.1
    → RelationAt (put d r e) x.0 x.1
RelationAt-put d r e x h =
    (h.0, (has-put d r x.1.src e h.1.0, (has-put d r x.1.dst e h.1.1.0, h.1.1.1)))

put_entity-IsWellFormed :
    (g : EnvironmentGraph) (r : String) (e : Entity)
    → IsWellFormed g
    → EntityAt r e
    → length (put g.entities r e) ≤ max_entities
    → IsWellFormed (record g { entities = put g.entities r e })
put_entity-IsWellFormed g r e w at few = record {
  few_entities = few;
  few_facts = w.few_facts;
  few_relations = w.few_relations;
  entity_at = All-put EntityAt g.entities r e w.entity_at at;
  fact_at = All-mono (FactAt-put g.entities r e) g.facts w.fact_at;
  relation_at = All-mono (RelationAt-put g.entities r e) g.relations w.relation_at;
}

put_fact-IsWellFormed :
    (g : EnvironmentGraph) (k : FactKey) (f : Fact)
    → IsWellFormed g
    → FactAt g.entities k f
    → length (put g.facts k f) ≤ max_facts
    → IsWellFormed (record g { facts = put g.facts k f })
put_fact-IsWellFormed g k f w at few = record {
  few_entities = w.few_entities;
  few_facts = few;
  few_relations = w.few_relations;
  entity_at = w.entity_at;
  fact_at = All-put (FactAt g.entities) g.facts k f w.fact_at at;
  relation_at = w.relation_at;
}

-- The counts of what was dropped and the enumerations are free.
rest-IsWellFormed :
    (g : EnvironmentGraph) (es : Dict String Enumerated) (d : Dropped)
    → IsWellFormed g
    → IsWellFormed (record g { enumerations = es; dropped = d })
rest-IsWellFormed g es d w = record {
  few_entities = w.few_entities;
  few_facts = w.few_facts;
  few_relations = w.few_relations;
  entity_at = w.entity_at;
  fact_at = w.fact_at;
  relation_at = w.relation_at;
}

settled-IsSettled : (v : Value) (s : State) → IsSettled (settled v s) v []
settled-IsSettled null established = tt
settled-IsSettled null unknown = tt
settled-IsSettled null contradicted = tt
settled-IsSettled _ established = (refl, refl)
settled-IsSettled _ unknown = tt
settled-IsSettled _ contradicted = tt

merge-FactAt :
    (d : Dict String Entity) (k : FactKey) (old new : Fact)
    → FactAt d k old
    → FactAt d k new
    → FactAt d k (merge_fact old new)
unfolding merge_fact
merge-FactAt d k old new o n = go old.state new.state refl
  where
    go : (a b : State) → old.state ≡ a → FactAt d k (merge_states a b old new)
    go established established p = elim (Bool-cases (value_eq old.value new.value)) [
      | inl same ↦ rw same o
      | inr differ ↦ rw differ (o.0, (o.1.0, tt))
    ]
    go unknown established p = n
    go contradicted established p = o
    go contradicted unknown p = o
    go contradicted contradicted p = o
    go established unknown p = o
    go established contradicted p = o
    go unknown unknown p = o
    go unknown contradicted p = o

put_relation-IsWellFormed :
    (g : EnvironmentGraph) (k : RelationKey) (r : Relation)
    → IsWellFormed g
    → RelationAt g.entities k r
    → length (put g.relations k r) ≤ max_relations
    → IsWellFormed (record g { relations = put g.relations k r })
put_relation-IsWellFormed g k r w at few = record {
  few_entities = w.few_entities;
  few_facts = w.few_facts;
  few_relations = few;
  entity_at = w.entity_at;
  fact_at = w.fact_at;
  relation_at = All-put (RelationAt g.entities) g.relations k r w.relation_at at;
}

-- The two outcomes of `a not in d or b not in d`.
Or-cases : (a b : Bool) → ((not a || not b) ≡ true) ⊎ ((a ≡ true) × (b ≡ true))
Or-cases true true = inr (refl, refl)
Or-cases true false = inl refl
Or-cases false b = inl refl

-- What a method leaves behind, and what it answers, keep `P`; a raise leaves the graph alone.
abbrev pub Keeps {ℓ} : {A : Type 0} → (A → Type ℓ) → Result A → Type ℓ
Keeps P (ok a) = P a
Keeps P (raise e) = Unit

-- The ways in which `add_fact` goes through: nothing or only a count changes, a known fact is merged
-- with the report, or the report is stored.
pub add_fact-Keeps {ℓ} :
    (u : Unicode) (g : EnvironmentGraph) (P : EnvironmentGraph → Type ℓ) (subject : Option String)
    (name : String) (value : Value) (state : State) (evidence : List String)
    (collected_at : Option String) (source : String) (observed_from : Option String)
    (context : List (String × String))
    → let new = λ (s : String).
      reported u s name value state evidence collected_at source observed_from context in
      ((d : Dropped) → P (record g { dropped = d }))
      → ((s : String)
          → has g.entities s ≡ true
          → (old : Fact) → get g.facts (s, (name, observed_from)) ≡ some old
          → P (record g {
            facts = put g.facts (s, (name, observed_from)) (merge_fact old (new s));
          }))
      → ((s : String)
          → has g.entities s ≡ true
          → get g.facts (s, (name, observed_from)) ≡ none
          → suc (length g.facts) ≤ max_facts
          → P (record g { facts = put g.facts (s, (name, observed_from)) (new s) }))
      → Keeps P
          (add_fact u g subject name value state evidence collected_at source observed_from context)
unfolding add_fact
add_fact-Keeps u g P none name value state evidence at source from context rest old new =
    rest g.dropped
add_fact-Keeps u g P (some subject) name value state evidence at source from context rest merged
      new =
    let k : FactKey = (subject, (name, from)) in
    elim (Bool-cases (has g.entities subject)) [
      | inr e ↦ rw e tt
      | inl known ↦ rw known (elim (Bool-cases (contains ("LIVE" ∷ "REPLAY" ∷ []) source)) [
        | inr e ↦ rw e tt
        | inl e ↦ rw e (elim (Option-cases (get g.facts k)) [
          | inl absent ↦ rw absent (elim (Bool-cases (leb max_facts (length g.facts))) [
            | inl full ↦ rw full (rest _)
            | inr room ↦ rw room (new subject known absent (ground arith))
          ])
          | inr (old, found) ↦ rw found (merged subject known old found)
        ])
      ])
    ]

module _ (u : Unicode) (g : EnvironmentGraph) (w : IsWellFormed g) where
  pub add_entity-IsWellFormed :
      (kind : Kind) (key : String) (owner scope : Option String) (evidence : List String)
      → Keeps (λ a. IsWellFormed a.0) (add_entity u g kind key owner scope evidence)
  unfolding add_entity
  add_entity-IsWellFormed kind key owner scope evidence =
      let key' = sanitize_text u key 300 in
      let r = ref kind key' in
      elim (Bool-cases (key == "")) [
        | inl e ↦ rw e tt
        | inr e ↦ rw e (elim (Option-cases (get g.entities r)) [
          | inl absent ↦ rw absent (elim (Bool-cases (leb max_entities (length g.entities))) [
            | inl full ↦ rw full (rest-IsWellFormed g g.enumerations _ w)
            | inr room ↦ rw room (
                put_entity-IsWellFormed g r _ w refl
                  (rw (length-put_new g.entities r _ absent) (ground arith)))
          ])
          | inr (old, found) ↦ rw found (
              put_entity-IsWellFormed g r _ w (All-get EntityAt g.entities r old w.entity_at found)
                (rw (length-put_old g.entities r _ found) w.few_entities))
        ])
      ]

  pub add_fact-IsWellFormed :
      (subject : Option String) (name : String) (value : Value) (state : State)
      (evidence : List String) (collected_at : Option String) (source : String)
      (observed_from : Option String) (context : List (String × String))
      → Keeps IsWellFormed
          (add_fact u g subject name value state evidence collected_at source observed_from context)
  add_fact-IsWellFormed subject name value state evidence at source from context =
      add_fact-Keeps u g IsWellFormed subject name value state evidence at source from context
        (λ d. rest-IsWellFormed g g.enumerations d w)
        (λ s known old found.
          put_fact-IsWellFormed g _ _ w
            (merge-FactAt g.entities _ old _
              (All-get (FactAt g.entities) g.facts _ old w.fact_at found)
              (refl, (known, settled-IsSettled (clean u value) state)))
            (rw (length-put_old g.facts _ _ found) w.few_facts))
        (λ s known absent room.
          put_fact-IsWellFormed g _ _ w (refl, (known, settled-IsSettled (clean u value) state))
            (rw (length-put_new g.facts _ _ absent) room))

  pub add_relation-IsWellFormed :
      (kind : Rel) (src dst : Option String) (evidence : List String)
      → Keeps IsWellFormed (add_relation g kind src dst evidence)
  unfolding add_relation
  add_relation-IsWellFormed kind none dst evidence = w
  add_relation-IsWellFormed kind (some src) none evidence = w
  add_relation-IsWellFormed kind (some src) (some dst) evidence =
      let k : RelationKey = (kind, (src, dst)) in
      elim (Or-cases (has g.entities src) (has g.entities dst)) [
        | inl e ↦ rw e tt
        | inr (s_there, d_there) ↦
            rw (s_there, d_there)
              (elim (Or-cases (kind_in src (sources kind)) (kind_in dst (targets kind))) [
                | inl e ↦ rw e tt
                | inr (s_fits, d_fits) ↦
                    rw (s_fits, d_fits)
                      (elim (Bool-cases (has g.relations k)) [
                        | inl e ↦ rw e w
                        | inr e ↦ rw e (elim (Bool-cases (leb max_relations (length g.relations))) [
                          | inl full ↦ rw full (rest-IsWellFormed g g.enumerations _ w)
                          | inr room ↦ rw room (
                              put_relation-IsWellFormed g k _ w
                                (refl, (s_there, (d_there, (s_fits, d_fits))))
                                (rw (length-put, e) (ground arith)))
                        ])
                      ])
              ])
      ]

  pub set_enumeration-IsWellFormed :
      (name : String) (status : Enumeration) (kind : Option Kind) (members : List String)
      (reason : String) (scope : Option String)
      → IsWellFormed (set_enumeration u g name status kind members reason scope)
  unfolding set_enumeration
  set_enumeration-IsWellFormed name status kind members reason scope =
      rest-IsWellFormed g _ g.dropped w
