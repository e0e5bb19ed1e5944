-- ===== src/Tests/Graph.antt =====
-- Runs of ipa_diagnose/environment/graph.py.
use ipa_diagnose.Base.{
  ℕ, ◌≡◌, ◌≢◌, refl, true, false, ◌&&◌, none, some, List, [], ◌∷◌, arith, contains, ◌==◌,
  if◌then◌else◌, string_eq, option_eq, pair_eq,
}
use ipa_diagnose.Base.Dict.{get, put}
use ipa_diagnose.Base.Strings.{sorted_set}
use ipa_diagnose.Base.Value.{Value, pos, str, number}
use ipa_diagnose.Environment.Types.{
  server, State, Fact, established, unknown, FactKey, partial, hosts, kdc, kind_eq,
  EnvironmentGraph, empty, ref,
}
use ipa_diagnose.Environment.Graph.{set_enumeration}
use ipa_diagnose.Environment.Graph.Invariant.{IsWellFormed, IsWellFormed-empty}
use ipa_diagnose.Environment.Graph.Reach.{Call, entity, fact, relation, build, build-IsWellFormed}
use ipa_diagnose.Environment.Graph.Settled.{Holds, build-Follows}
use ipa_diagnose.Environment.Lookup.{absent, is_complete}
use ipa_diagnose.Environment.Lookup.Absence.{absent-set_enumeration}
use ipa_diagnose.Tests.Text.{ascii}

abbrev calls : List Call
calls =
    entity server "a" none none ("x1" ∷ [])
    ∷ entity kdc "a" none none []
    ∷ relation hosts (some "SERVER:a") (some "KDC:a") []
    ∷ fact (some "SERVER:a") "role" (str "master") established [] none "LIVE" none []
    ∷ []

abbrev small : EnvironmentGraph
small = build ascii empty calls

build-IsWellFormed_example : IsWellFormed small
build-IsWellFormed_example = build-IsWellFormed ascii empty calls IsWellFormed-empty

abbrev one_server : EnvironmentGraph
one_server = record empty {
  entities =
      ("SERVER:a", record { kind = server; key = "a"; owner = none; scope = none; evidence = [] })
      ∷ [];
}

abbrev cpus : ℕ → State → List Value → Fact
cpus n state conflicting = record {
  subject = "SERVER:a";
  name = "cpus";
  value = number (pos n);
  state = state;
  evidence = [];
  collected_at = none;
  source = "LIVE";
  observed_from = none;
  context = [];
  conflicting = conflicting;
}

abbrev with_fact : Fact → EnvironmentGraph
with_fact f = record one_server { facts = (("SERVER:a", ("cpus", none)), f) ∷ [] }

-- Another number of processors is reported twice.
abbrev other_reports : List Call
other_reports =
    fact (some "SERVER:a") "cpus" (number (pos 8)) established [] none "LIVE" none []
    ∷ fact (some "SERVER:a") "cpus" (number (pos 16)) established [] none "LIVE" none []
    ∷ []

abbrev cpus_key : FactKey
cpus_key = ("SERVER:a", ("cpus", none))

not_unknown : established ≢ unknown
not_unknown e = ground (arith, e)

stored : get (with_fact (cpus 4 established [])).facts cpus_key ≡ some (cpus 4 established [])
unfolding get string_eq option_eq pair_eq
stored = refl

build-Follows_example :
    Holds cpus_key
      (cpus 4 established [])
      (build ascii (with_fact (cpus 4 established [])) other_reports)
build-Follows_example =
    build-Follows ascii (with_fact (cpus 4 established [])) other_reports cpus_key
      (cpus 4 established []) stored not_unknown

absent-set_enumeration_example :
    absent
      (set_enumeration ascii one_server "servers" partial (some server) ("SERVER:a" ∷ []) "" none)
      "servers"
      server
      "b"
    ≡ (if contains ("SERVER:a" ∷ []) (ref server "b")
        then some false
        else if is_complete partial && some server == some server
        then some true
        else none)
absent-set_enumeration_example =
    absent-set_enumeration ascii one_server "servers" partial (some server) ("SERVER:a" ∷ []) ""
      none server "b"

not_read_from_partial :
    absent
      (set_enumeration ascii one_server "servers" partial (some server) ("SERVER:a" ∷ []) "" none)
      "servers"
      server
      "b"
    ≡ none
unfolding absent string_eq get set_enumeration put contains sorted_set ref
not_read_from_partial = refl
