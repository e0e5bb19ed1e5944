-- ===== src/Environment/Graph/Reach.antt =====
-- The graphs that any sequence of calls of the methods of `EnvironmentGraph` builds.
use ipa_diagnose.Base.{String, Option, List, [], ◌∷◌}
use ipa_diagnose.Base.Value.{Value}
use ipa_diagnose.TextSafe.Scan.{Unicode}
use ipa_diagnose.Environment.Types.{
  Kind, Rel, State, Enumeration, EnvironmentGraph, Result, ok, raise,
}
use ipa_diagnose.Environment.Graph.{add_entity, add_fact, add_relation, set_enumeration}
use ipa_diagnose.Environment.Graph.Invariant.{
  IsWellFormed, Keeps, add_entity-IsWellFormed, add_fact-IsWellFormed, add_relation-IsWellFormed,
  set_enumeration-IsWellFormed,
}

-- One call, with its arguments.
pub data Call : Type 0 where
  entity :
      (kind : Kind) (key : String) (owner scope : Option String) (evidence : List String) → Call
  fact :
      (subject : Option String) (name : String) (value : Value) (state : State)
      (evidence : List String) (collected_at : Option String) (source : String)
      (observed_from : Option String) (context : List (String × String))
      → Call
  relation : (kind : Rel) (src dst : Option String) (evidence : List String) → Call
  enumerate :
      (name : String) (status : Enumeration) (kind : Option Kind) (members : List String)
      (reason : String) (scope : Option String)
      → Call

-- A caller that catches `GraphError` goes on with the graph as it was.
abbrev pub or_else : EnvironmentGraph → Result EnvironmentGraph → EnvironmentGraph
or_else g (ok h) = h
or_else g (raise e) = g

abbrev pub or_else_first :
    EnvironmentGraph → Result (EnvironmentGraph × Option String) → EnvironmentGraph
or_else_first g (ok a) = a.0
or_else_first g (raise e) = g

unfoldable pub call : Unicode → EnvironmentGraph → Call → EnvironmentGraph
call u g (entity kind key owner scope evidence) =
    or_else_first g (add_entity u g kind key owner scope evidence)
call u g (fact subject name value state evidence at source from context) =
    or_else g (add_fact u g subject name value state evidence at source from context)
call u g (relation kind src dst evidence) = or_else g (add_relation g kind src dst evidence)
call u g (enumerate name status kind members reason scope) =
    set_enumeration u g name status kind members reason scope

unfoldable pub build : Unicode → EnvironmentGraph → List Call → EnvironmentGraph
unfolding call
build u g [] = g
build u g (c ∷ cs) = build u (call u g c) cs

or_else-IsWellFormed :
    (g : EnvironmentGraph) (r : Result EnvironmentGraph)
    → IsWellFormed g
    → Keeps IsWellFormed r
    → IsWellFormed (or_else g r)
or_else-IsWellFormed g (ok h) w k = k
or_else-IsWellFormed g (raise e) w k = w

or_else_first-IsWellFormed :
    (g : EnvironmentGraph) (r : Result (EnvironmentGraph × Option String))
    → IsWellFormed g
    → Keeps (λ a. IsWellFormed a.0) r
    → IsWellFormed (or_else_first g r)
or_else_first-IsWellFormed g (ok a) w k = k
or_else_first-IsWellFormed g (raise e) w k = w

call-IsWellFormed :
    (u : Unicode) (g : EnvironmentGraph) (c : Call) → IsWellFormed g → IsWellFormed (call u g c)
unfolding call
call-IsWellFormed u g (entity kind key owner scope evidence) w =
    or_else_first-IsWellFormed g _ w (add_entity-IsWellFormed u g w kind key owner scope evidence)
call-IsWellFormed u g (fact subject name value state evidence at source from context) w =
    or_else-IsWellFormed g _ w
      (add_fact-IsWellFormed u g w subject name value state evidence at source from context)
call-IsWellFormed u g (relation kind src dst evidence) w =
    or_else-IsWellFormed g _ w (add_relation-IsWellFormed u g w kind src dst evidence)
call-IsWellFormed u g (enumerate name status kind members reason scope) w =
    set_enumeration-IsWellFormed u g w name status kind members reason scope

-- Whatever sequence of calls builds a graph from a well-formed one (a call that raises changes
-- nothing), the graph keeps its bounds of 400 entities, 3000 facts and 1500 relations; each entity,
-- fact and relation stands under its own key; a fact is about an entity of the graph, and one that
-- is ESTABLISHED has a value and no conflicting value; and a relation joins two entities of the
-- graph whose kinds its kind allows.
pub build-IsWellFormed :
    (u : Unicode) (g : EnvironmentGraph) (calls : List Call)
    → IsWellFormed g
    → IsWellFormed (build u g calls)
unfolding build
build-IsWellFormed u g [] w = w
build-IsWellFormed u g (c ∷ cs) w = build-IsWellFormed u (call u g c) cs (call-IsWellFormed u g c w)
