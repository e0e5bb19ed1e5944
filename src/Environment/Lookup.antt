-- ===== src/Environment/Lookup.antt =====
-- The lookups of `EnvironmentGraph` in ipa_diagnose/environment/graph.py: no traversal, no inference.
pub mod Absence
use ipa_diagnose.Base.{
  ℕ, String, Bool, true, false, ◌&&◌, ◌||◌, not, Option, none, some, List, [], ◌∷◌, map, ltb, ◌==◌,
  if◌then◌else◌, filter, contains, Eq, string_eq, option_eq, pair_eq,
}
use ipa_diagnose.Base.Dict.{get, values}
use ipa_diagnose.Base.Strings.{sorted, str_lt}
use ipa_diagnose.Environment.Types.{
  Kind, Rel, Enumeration, complete, not_asked, kind_eq, rel_eq, Entity, Fact, Relation, Enumerated,
  EnvironmentGraph, ref, rel_value,
}

unfoldable pub entity : EnvironmentGraph → String → Option Entity
entity g r = get g.entities r

unfoldable pub entities : EnvironmentGraph → Kind → List Entity
entities g kind =
    sorted (λ a b. str_lt a.key b.key) (filter (λ e. e.kind == kind) (values g.entities))

unfoldable pub fact : EnvironmentGraph → String → String → Option String → Option Fact
fact g subject name observed_from = get g.facts (subject, (name, observed_from))

-- `f.observed_from or ""`
abbrev pub or_empty : Option String → String
or_empty none = ""
or_empty (some s) = s

-- Python's order of two pairs of texts
abbrev pub pair_lt : String × String → String × String → Bool
pair_lt (a, b) (c, d) = str_lt a c || (a == c && str_lt b d)

abbrev pub is_asked {ℓ} : {A : Type ℓ} ⦃e : Eq A⦄ → Option A → A → Bool
is_asked none a = true
is_asked (some b) a = a == b

unfoldable pub facts : EnvironmentGraph → String → Option String → List Fact
facts g subject name =
    sorted (λ f h. pair_lt (f.name, or_empty f.observed_from) (h.name, or_empty h.observed_from))
      (map (λ e. e.1) (filter (λ e. e.0.0 == subject && is_asked name e.0.1.0) g.facts))

unfoldable pub relations :
    EnvironmentGraph → Option Rel → Option String → Option String → List Relation
relations g kind src dst =
    sorted
      (λ r s.
        str_lt (rel_value r.kind) (rel_value s.kind)
        || (rel_value r.kind == rel_value s.kind && pair_lt (r.src, r.dst) (s.src, s.dst)))
      (filter (λ r. is_asked kind r.kind && is_asked src r.src && is_asked dst r.dst)
        (values g.relations))

unfoldable pub enumeration : EnvironmentGraph → String → Enumeration
enumeration g name = elim (get g.enumerations name) [ some e ↦ e.status | none ↦ not_asked ]

abbrev pub is_complete : Enumeration → Bool
is_complete complete = true
is_complete _ = false

-- What an enumeration record answers for the entity `r` of one kind.
unfoldable pub absent_in : Option Enumerated → Kind → String → Option Bool
absent_in none kind r = none
absent_in (some e) kind r =
    if contains e.members r
    then some false
    else if not (is_complete e.status) || not (e.kind == some kind)
    then none
    else some true

unfoldable pub absent : EnvironmentGraph → String → Kind → String → Option Bool
unfolding absent_in
absent g name kind key = absent_in (get g.enumerations name) kind (ref kind key)

unfoldable pub truncated : EnvironmentGraph → Bool
truncated g = ltb 0 g.dropped.entities || ltb 0 g.dropped.facts || ltb 0 g.dropped.relations
