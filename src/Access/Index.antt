-- ===== src/Access/Index.antt =====
-- `RelationshipIndex` of ipa_diagnose/access/relations.py.
pub mod Path
pub mod Fuel
use ipa_diagnose.Base.{
  ℕ, zero, suc, ◌+◌, String, Bool, true, false, ◌&&◌, ◌||◌, not, Option, none, some, List, [], ◌∷◌,
  ◌++◌, ◌==◌, if◌then◌else◌, leb, length, contains, filter, Eq, string_eq, option_eq, pair_eq,
}
use ipa_diagnose.Base.Dict.{Dict, get, put, has, values}

pub data NodeKind : Type 0 where
  user group host hostgroup hbac_rule hbac_service hbac_service_group trusted_domain : NodeKind

pub NodeKind-discrete : Discrete NodeKind
NodeKind-discrete = hlevel

instance unfoldable pub node_kind_eq : Eq NodeKind
unfolding NodeKind-discrete
node_kind_eq = record { dec = NodeKind-discrete }

pub data EdgeKind : Type 0 where
  member_of member_of_indirect rule_applies_to : EdgeKind

pub EdgeKind-discrete : Discrete EdgeKind
EdgeKind-discrete = hlevel

instance unfoldable pub edge_kind_eq : Eq EdgeKind
unfolding EdgeKind-discrete
edge_kind_eq = record { dec = EdgeKind-discrete }

pub record Node : Type 0 where
  pub kind : NodeKind
  pub name : String

pub record Edge : Type 0 where
  pub src : Node
  pub dst : Node
  pub kind : EdgeKind
  pub source : String
  pub side : Option String

abbrev pub Key : Type 0
Key = NodeKind × String

abbrev pub EdgeKey : Type 0
EdgeKey = Key × (Key × (EdgeKind × Option String))

abbrev pub default_depth : ℕ
default_depth = 50

pub record RelationshipIndex : Type 0 where
  pub max_nodes : ℕ
  pub max_edges : ℕ
  pub nodes : Dict Key Node
  pub edges : Dict EdgeKey Edge
  pub out : Dict Key (List Edge)
  pub truncated : Bool

abbrev pub empty : ℕ → ℕ → RelationshipIndex
empty max_nodes max_edges = record {
  max_nodes = max_nodes;
  max_edges = max_edges;
  nodes = [];
  edges = [];
  out = [];
  truncated = false;
}

abbrev pub or_nil : Option (List Edge) → List Edge
or_nil none = []
or_nil (some l) = l

abbrev pub all_out : Dict Key (List Edge) → List Edge
all_out [] = []
all_out ((k, l) ∷ d) = l ++ all_out d

-- `str.lower` is a parameter.
module _ (lower : String → String) where
  abbrev pub key : Node → Key
  key n = (n.kind, lower n.name)

  abbrev pub node_at : RelationshipIndex → Node → Option Node → RelationshipIndex × Option Node
  node_at g n (some old) = (g, some old)
  node_at g n none =
      if leb g.max_nodes (length g.nodes)
      then (record g { truncated = true }, none)
      else (record g { nodes = put g.nodes (key n) n }, some n)

  -- `node`: the index, and the node or `None`
  unfoldable pub node : RelationshipIndex → NodeKind → String → RelationshipIndex × Option Node
  node g kind name =
      let n : Node = record { kind = kind; name = name } in node_at g n (get g.nodes (key n))

  -- `add_edge`
  unfoldable pub add_edge :
      RelationshipIndex
      → Option Node
      → Option Node
      → EdgeKind
      → String
      → Option String
      → RelationshipIndex
  add_edge g none dst kind source side = g
  add_edge g (some src) none kind source side = g
  add_edge g (some src) (some dst) kind source side =
      let k : EdgeKey = (key src, (key dst, (kind, side))) in
      let e : Edge = record { src = src; dst = dst; kind = kind; source = source; side = side } in
      if has g.edges k
      then g
      else if leb g.max_edges (length g.edges)
      then record g { truncated = true }
      else record g {
        edges = put g.edges k e;
        out = put g.out (key src) (or_nil (get g.out (key src)) ++ e ∷ []);
      }

  -- One loop of `add_memberships`
  unfoldable pub add_members :
      RelationshipIndex
      → Option Node
      → NodeKind
      → List String
      → EdgeKind
      → String
      → RelationshipIndex
  unfolding node add_edge
  add_members g child parent_kind [] kind source = g
  add_members g child parent_kind (name ∷ names) kind source =
      let found = node g parent_kind name in
      add_members (add_edge found.0 child found.1 kind source none) child parent_kind names kind
        source

  unfoldable pub add_memberships :
      RelationshipIndex
      → Option Node
      → NodeKind
      → List String
      → List String
      → String
      → RelationshipIndex
  unfolding add_members
  add_memberships g child parent_kind direct indirect source =
      add_members (add_members g child parent_kind direct member_of source) child parent_kind
        indirect member_of_indirect source

  unfoldable pub parents : RelationshipIndex → Node → Bool → List Edge
  parents g n direct_only =
      filter (λ e. e.kind == member_of || (not direct_only && e.kind == member_of_indirect))
        (or_nil (get g.out (key n)))

  -- What a pass over the parents of one node ends with.
  pub data Expanded : Type 0 where
    found : List Edge → Expanded
    go : (seen : List Key) (queue : List (Node × List Edge)) → Expanded

  unfoldable pub expand :
      Key → List Edge → List Edge → List Key → List (Node × List Edge) → Expanded
  expand target [] path seen queue = go seen queue
  expand target (e ∷ es) path seen queue =
      let skip = expand target es path seen queue in
      let take = expand target es path (key e.dst ∷ seen) (queue ++ (e.dst, path ++ e ∷ []) ∷ []) in
      if contains seen (key e.dst)
      then skip
      else if key e.dst == target
      then found (path ++ e ∷ [])
      else take

  -- The loop over the queue; `none` is out of fuel.
  unfoldable pub search :
      ℕ
      → RelationshipIndex
      → Key
      → ℕ
      → List (Node × List Edge)
      → List Key
      → Option (Option (List Edge))
  unfolding expand parents
  search fuel g target max_depth [] seen = some none
  search zero g target max_depth ((cur, path) ∷ queue) seen = none
  search (suc fuel) g target max_depth ((cur, path) ∷ queue) seen =
      let rest = search fuel g target max_depth queue seen in
      if leb max_depth (length path)
      then rest
      else elim (expand target (parents g cur true) path seen queue) [
        | found p ↦ some (some p)
        | go seen' queue' ↦ search fuel g target max_depth queue' seen'
      ]

  -- `membership_path`: each pass but the first starts at a node that an edge of its own has reached.
  unfoldable pub membership_path : RelationshipIndex → Node → Node → ℕ → Option (Option (List Edge))
  unfolding search
  membership_path g start target max_depth =
      if key start == key target
      then some (some [])
      else search (1 + length (all_out g.out)) g (key target) max_depth ((start, []) ∷ [])
          (key start ∷ [])
