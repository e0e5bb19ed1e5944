-- ===== src/Environment/Types.antt =====
-- The closed kinds and the records of ipa_diagnose/environment/graph.py.
use ipa_diagnose.Base.{
  ℕ, String, ◌<>◌, Option, none, some, List, [], ◌∷◌, ◌==◌, if◌then◌else◌, Eq, string_eq,
}
use ipa_diagnose.Base.Dict.{Dict}
use ipa_diagnose.Base.Strings.{chars, text, before}
use ipa_diagnose.Base.Value.{Value}

abbrev pub max_entities : ℕ
max_entities = 400

abbrev pub max_facts : ℕ
max_facts = 3000

abbrev pub max_relations : ℕ
max_relations = 1500

pub data Kind : Type 0 where
  server replica client suffix agreement topology_segment server_role : Kind
  directory_server_instance kdc principal keytab : Kind

pub Kind-discrete : Discrete Kind
Kind-discrete = hlevel

instance unfoldable pub kind_eq : Eq Kind
unfolding Kind-discrete
kind_eq = record { dec = Kind-discrete }

-- The members' values.
abbrev pub kind_value : Kind → String
kind_value server = "SERVER"
kind_value replica = "REPLICA"
kind_value client = "CLIENT"
kind_value suffix = "SUFFIX"
kind_value agreement = "AGREEMENT"
kind_value topology_segment = "TOPOLOGY_SEGMENT"
kind_value server_role = "SERVER_ROLE"
kind_value directory_server_instance = "DIRECTORY_SERVER_INSTANCE"
kind_value kdc = "KDC"
kind_value principal = "PRINCIPAL"
kind_value keytab = "KEYTAB"

pub data State : Type 0 where
  established unknown contradicted : State

pub data Enumeration : Type 0 where
  complete partial not_asked failed : Enumeration

pub data Rel : Type 0 where
  hosts has_role participates_in supplier_of consumer_of replicates : Rel
  connects segment_of principal_of contains selects : Rel

pub Rel-discrete : Discrete Rel
Rel-discrete = hlevel

instance unfoldable pub rel_eq : Eq Rel
unfolding Rel-discrete
rel_eq = record { dec = Rel-discrete }

abbrev pub rel_value : Rel → String
rel_value hosts = "HOSTS"
rel_value has_role = "HAS_ROLE"
rel_value participates_in = "PARTICIPATES_IN"
rel_value supplier_of = "SUPPLIER_OF"
rel_value consumer_of = "CONSUMER_OF"
rel_value replicates = "REPLICATES"
rel_value connects = "CONNECTS"
rel_value segment_of = "SEGMENT_OF"
rel_value principal_of = "PRINCIPAL_OF"
rel_value contains = "CONTAINS"
rel_value selects = "SELECTS"

-- Which entity kinds a relation may connect.
unfoldable pub sources : Rel → List Kind
sources hosts = server ∷ []
sources has_role = server ∷ []
sources participates_in = server ∷ []
sources supplier_of = server ∷ []
sources consumer_of = server ∷ []
sources replicates = agreement ∷ []
sources connects = topology_segment ∷ []
sources segment_of = topology_segment ∷ []
sources principal_of = principal ∷ []
sources contains = keytab ∷ []
sources selects = client ∷ []

unfoldable pub targets : Rel → List Kind
targets hosts = directory_server_instance ∷ kdc ∷ []
targets has_role = server_role ∷ []
targets participates_in = suffix ∷ []
targets supplier_of = agreement ∷ []
targets consumer_of = agreement ∷ []
targets replicates = suffix ∷ []
targets connects = server ∷ []
targets segment_of = suffix ∷ []
targets principal_of = server ∷ []
targets contains = principal ∷ []
targets selects = server ∷ []

unfoldable pub ref : Kind → String → String
ref kind key = kind_value kind <> (":" <> key)

abbrev pub all_kinds : List Kind
all_kinds =
    server ∷ replica ∷ client ∷ suffix ∷ agreement ∷ topology_segment ∷ server_role
    ∷ directory_server_instance ∷ kdc ∷ principal ∷ keytab ∷ []

-- `Kind(k)`
abbrev pub kind_named : List Kind → String → Option Kind
kind_named [] s = none
kind_named (k ∷ ks) s = if kind_value k == s then some k else kind_named ks s

unfoldable pub kind_of : String → Option Kind
unfolding string_eq chars before
kind_of r = kind_named all_kinds (text (before b':' (chars r)))

pub record Entity : Type 0 where
  pub kind : Kind
  pub key : String
  pub owner : Option String
  pub scope : Option String
  pub evidence : List String

pub record Fact : Type 0 where
  pub subject : String
  pub name : String
  pub value : Value
  pub state : State
  pub evidence : List String
  pub collected_at : Option String
  pub source : String
  pub observed_from : Option String
  pub context : List (String × String)
  pub conflicting : List Value

pub record Relation : Type 0 where
  pub kind : Rel
  pub src : String
  pub dst : String
  pub evidence : List String

pub record Enumerated : Type 0 where
  pub status : Enumeration
  pub kind : Option Kind
  pub members : List String
  pub reason : String
  pub scope : Option String

pub record Dropped : Type 0 where
  pub entities : ℕ
  pub facts : ℕ
  pub relations : ℕ

abbrev pub FactKey : Type 0
FactKey = String × (String × Option String)

abbrev pub RelationKey : Type 0
RelationKey = Rel × (String × String)

-- The attributes of an `EnvironmentGraph`.
pub record EnvironmentGraph : Type 0 where
  pub entities : Dict String Entity
  pub facts : Dict FactKey Fact
  pub relations : Dict RelationKey Relation
  pub enumerations : Dict String Enumerated
  pub dropped : Dropped

abbrev pub empty : EnvironmentGraph
empty = record {
  entities = [];
  facts = [];
  relations = [];
  enumerations = [];
  dropped = record { entities = 0; facts = 0; relations = 0 };
}

-- `GraphError`, by the guard that raises it
pub data GraphError : Type 0 where
  bad_entity unknown_subject bad_source unknown_endpoint refused_endpoint : GraphError

pub data Result {ℓ} (A : Type ℓ) : Type ℓ where
  ok : A → Result A
  raise : GraphError → Result A
