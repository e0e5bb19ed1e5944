-- ===== src/Environment/Graph.antt =====
-- The methods of `EnvironmentGraph` in ipa_diagnose/environment/graph.py. A method that raises does
-- so before it has changed anything, so `raise` carries no graph.
pub mod Invariant
pub mod Reach
pub mod Conflict
pub mod Settled
use ipa_diagnose.Base.{
  ℕ, zero, suc, ◌+◌, String, Bool, true, false, ◌&&◌, ◌||◌, not, Option, none, some, List, [], ◌∷◌,
  ◌++◌, map, leb, ltb, ◌==◌, if◌then◌else◌, length, take, filter, contains, is_some, string_eq,
  option_eq, pair_eq,
}
use ipa_diagnose.Base.Dict.{Dict, get, put, has, values}
use ipa_diagnose.Base.Strings.{sorted, sorted_set, str_lt}
use ipa_diagnose.Base.Value.{
  Value, null, boolean, number, str, array, dict, other, Items, nil, cons, Fields, end, field,
  put_field, value_eq,
}
use ipa_diagnose.TextSafe.{sanitize_text}
use ipa_diagnose.TextSafe.Scan.{Unicode}
use ipa_diagnose.Environment.Types.{
  Kind, Rel, State, established, unknown, contradicted, Enumeration, complete, not_asked, kind_eq,
  rel_eq, Entity, Fact, Relation, Enumerated, Dropped, FactKey, RelationKey, EnvironmentGraph,
  bad_entity, unknown_subject, bad_source, unknown_endpoint, refused_endpoint, Result, ok, raise,
  max_entities, max_facts, max_relations, ref, kind_of, sources, targets, kind_value, rel_value,
}

-- `tuple(sorted(set(old) | set(new)))`
abbrev pub union : List String → List String → List String
union old new = sorted_set (old ++ new)

-- `_clean`: at most 64 members of a list and of a dict, at every level.
unfoldable mutual
  unfolding sanitize_text put_field

  pub clean : Unicode → Value → Value
  clean u null = null
  clean u (boolean b) = boolean b
  clean u (number n) = number n
  clean u (str s) = str (sanitize_text u s 300)
  clean u (array xs) = array (clean_items u xs 64)
  clean u (dict fs) = dict (clean_fields u fs 64 end)
  clean u (other s) = str (sanitize_text u s 300)

  pub clean_items : Unicode → Items → ℕ → Items
  clean_items u nil n = nil
  clean_items u (cons x xs) n = elim n [
    | zero ↦ nil
    | suc m ↦ cons (clean u x) (clean_items u xs m)
  ]

  -- The dict built so far comes last: two keys that are cleaned to one text keep the last value.
  pub clean_fields : Unicode → Fields → ℕ → Fields → Fields
  clean_fields u end n out = out
  clean_fields u (field k v fs) n out = elim n [
    | zero ↦ out
    | suc m ↦ clean_fields u fs m (put_field out (sanitize_text u k 80) (clean u v))
  ]

-- An established fact has a value.
abbrev pub settled : Value → State → State
settled null established = unknown
settled _ s = s

-- The fact that is kept where `old` is stored and `new` is reported for the same key, by the states
-- of the two.
abbrev pub merge_states : State → State → Fact → Fact → Fact
merge_states established established old new =
    if not (value_eq old.value new.value)
    then record old {
      state = contradicted;
      conflicting = old.conflicting ++ new.value ∷ [];
      evidence = union old.evidence new.evidence;
    }
    else old
merge_states unknown established old new = new
merge_states _ _ old new = old

unfoldable pub merge_fact : Fact → Fact → Fact
merge_fact old new = merge_states old.state new.state old new

module _ (u : Unicode) where
  unfoldable pub add_entity :
      EnvironmentGraph
      → Kind
      → String
      → Option String
      → Option String
      → List String
      → Result (EnvironmentGraph × Option String)
  add_entity g kind key owner scope evidence =
      if key == ""
      then raise bad_entity
      else (let key' = sanitize_text u key 300 in
          let r = ref kind key' in
          let ev = sorted_set evidence in
          elim (get g.entities r) [
            | some old ↦ ok (
              record g {
                entities = put g.entities r (record old { evidence = union old.evidence ev });
              },
              some r,
            )
            | none ↦
                if leb max_entities (length g.entities)
                then ok (
                  record g { dropped = record g.dropped { entities = g.dropped.entities + 1 } },
                  none,
                )
                else ok (
                  record g {
                    entities = put g.entities r (record {
                      kind = kind;
                      key = key';
                      owner = owner;
                      scope = scope;
                      evidence = ev;
                    });
                  },
                  some r,
                )
          ])

  -- The fact that a call reports.
  abbrev pub reported :
      String
      → String
      → Value
      → State
      → List String
      → Option String
      → String
      → Option String
      → List (String × String)
      → Fact
  reported subject name value state evidence collected_at source observed_from context = record {
    subject = subject;
    name = name;
    value = clean u value;
    state = settled (clean u value) state;
    evidence = sorted_set evidence;
    collected_at = collected_at;
    source = source;
    observed_from = observed_from;
    context = sorted (λ a b. str_lt a.0 b.0) context;
    conflicting = [];
  }

  unfoldable pub add_fact :
      EnvironmentGraph
      → Option String
      → String
      → Value
      → State
      → List String
      → Option String
      → String
      → Option String
      → List (String × String)
      → Result EnvironmentGraph
  add_fact g none name value state evidence collected_at source observed_from context = ok g
  add_fact g (some subject) name value state evidence collected_at source observed_from context =
      if not (has g.entities subject)
      then raise unknown_subject
      else if not (contains ("LIVE" ∷ "REPLAY" ∷ []) source)
      then raise bad_source
      else (let k : FactKey = (subject, (name, observed_from)) in
          let new =
            reported subject name value state evidence collected_at source observed_from context in
          elim (get g.facts k) [
            | some old ↦ ok (record g { facts = put g.facts k (merge_fact old new) })
            | none ↦
                if leb max_facts (length g.facts)
                then ok (record g { dropped = record g.dropped { facts = g.dropped.facts + 1 } })
                else ok (record g { facts = put g.facts k new })
          ])

  unfoldable pub set_enumeration :
      EnvironmentGraph
      → String
      → Enumeration
      → Option Kind
      → List String
      → String
      → Option String
      → EnvironmentGraph
  set_enumeration g name status kind members reason scope = record g {
    enumerations = put g.enumerations name (record {
      status = status;
      kind = kind;
      members = sorted_set members;
      reason = sanitize_text u reason 300;
      scope = scope;
    });
  }

-- `_kind_of(r) in kinds`
abbrev pub kind_in : String → List Kind → Bool
kind_in r kinds = contains (map some kinds) (kind_of r)

unfoldable pub add_relation :
    EnvironmentGraph → Rel → Option String → Option String → List String → Result EnvironmentGraph
add_relation g kind none dst evidence = ok g
add_relation g kind (some src) none evidence = ok g
add_relation g kind (some src) (some dst) evidence =
    if not (has g.entities src) || not (has g.entities dst)
    then raise unknown_endpoint
    else if not (kind_in src (sources kind)) || not (kind_in dst (targets kind))
    then raise refused_endpoint
    else (let k : RelationKey = (kind, (src, dst)) in
        if has g.relations k
        then ok g
        else if leb max_relations (length g.relations)
        then ok (record g { dropped = record g.dropped { relations = g.dropped.relations + 1 } })
        else ok (record g {
          relations =
              put g.relations k
                (record { kind = kind; src = src; dst = dst; evidence = sorted_set evidence });
        }))
