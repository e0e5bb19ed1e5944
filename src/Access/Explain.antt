-- ===== src/Access/Explain.antt =====
-- The sides of an HBAC rule and why one covers an object: `HbacRule.from_api` and `explain_side` of
-- ipa_diagnose/access/relations.py. A set of names is the list of its members.
pub mod Covered
use ipa_diagnose.Base.{
  ℕ, zero, suc, ◌+◌, ◌-◌, String, ◌<>◌, Bool, true, false, ◌&&◌, ◌||◌, not, Option, none, some,
  List, [], ◌∷◌, ◌++◌, map, ◌==◌, eqb, if◌then◌else◌, length, contains, filter, any, take,
  string_eq,
}
use ipa_diagnose.Base.Strings.{sorted, str_lt}
use ipa_diagnose.Base.Value.{Value, boolean, str, array, dict, Items, nil, cons, Fields, get_field}
use ipa_diagnose.Access.Index.{
  NodeKind, Node, Edge, RelationshipIndex, default_depth, node, membership_path,
}

-- `_first`
abbrev first : Option Value → Option Value
first none = none
first (some (array nil)) = none
first (some (array (cons v vs))) = some v
first (some v) = some v

abbrev texts : Items → List String
texts nil = []
texts (cons (str s) vs) = s ∷ texts vs
texts (cons v vs) = texts vs

-- `_names`
unfoldable pub names : Option Value → List String
names (some (str s)) = s ∷ []
names (some (array vs)) = texts vs
names _ = []

pub record RuleSide : Type 0 where
  pub category_all : Bool
  pub names : List String
  pub groups : List String

pub record HbacRule : Type 0 where
  pub name : String
  pub enabled : Option Bool
  pub user : RuleSide
  pub host : RuleSide
  pub service : RuleSide
  pub source : String

pub data How : Type 0 where
  whole_category direct group nested_group none_known unknown more : How

pub record SideExplanation : Type 0 where
  pub side : String
  pub how : How
  pub via : Option String
  pub chain : List String
  pub chain_complete : Bool
  pub count : ℕ

abbrev explanation : String → How → SideExplanation
explanation side how = record {
  side = side;
  how = how;
  via = none;
  chain = [];
  chain_complete = true;
  count = 0;
}

pub record Membership : Type 0 where
  pub node : Node
  pub direct : List String
  pub indirect : List String

abbrev pub is_given_any {ℓ} : {A : Type ℓ} → List A → Bool
is_given_any [] = false
is_given_any (_ ∷ _) = true

-- `str.lower` and `str.upper` are parameters.
module _ (lower upper : String → String) where
  -- `_flag`
  abbrev flag_of : Option Value → Option Bool
  flag_of (some (boolean b)) = some b
  flag_of (some (str s)) =
      if upper s == "TRUE" then some true else if upper s == "FALSE" then some false else none
  flag_of _ = none

  unfoldable pub flag : Option Value → Option Bool
  flag v = flag_of (first v)

  abbrev is_all : Option Value → Bool
  is_all (some (str s)) = lower s == "all"
  is_all _ = false

  abbrev rule_side : Fields → String → String → String → String → RuleSide
  rule_side fs prefix member obj grp = record {
    category_all = is_all (first (get_field fs (prefix <> "category")));
    names = names (get_field fs (member <> ("_" <> obj)));
    groups = names (get_field fs (member <> ("_" <> grp)));
  }

  abbrev named : Fields → String → Option Value → Option HbacRule
  named fs source (some (str name)) =
      if name == ""
      then none
      else some (record {
        name = name;
        enabled = flag (get_field fs "ipaenabledflag");
        user = rule_side fs "user" "memberuser" "user" "group";
        host = rule_side fs "host" "memberhost" "host" "hostgroup";
        service = rule_side fs "service" "memberservice" "hbacsvc" "hbacsvcgroup";
        source = source;
      })
  named fs source _ = none

  -- `HbacRule.from_api`
  unfoldable pub from_api : Value → String → Option HbacRule
  unfolding names flag get_field
  from_api (dict fs) source = named fs source (first (get_field fs "cn"))
  from_api _ source = none

  -- `Membership.all_groups`
  abbrev pub all_groups : Membership → List String
  all_groups m = map lower (m.direct ++ m.indirect)

  abbrev nested : String → Membership → String → Option (List Edge) → SideExplanation
  nested side m g (some (e ∷ es)) = record (explanation side nested_group) {
    via = some g;
    chain = m.node.name ∷ map (λ x. x.dst.name) (e ∷ es);
  }
  nested side m g _ = record (explanation side nested_group) {
    via = some g;
    chain = m.node.name ∷ "..." ∷ g ∷ [];
    chain_complete = false;
  }

  abbrev or_none : Option (Option (List Edge)) → Option (List Edge)
  or_none none = none
  or_none (some p) = p

  abbrev path_to : RelationshipIndex → Node → Option Node → Option (List Edge)
  path_to g start none = none
  path_to g start (some target) = or_none (membership_path lower g start target default_depth)

  -- One pass of the loop over the listed groups; it may add the group's node to the index.
  abbrev explain_group :
      RelationshipIndex
      → String
      → Membership
      → NodeKind
      → String
      → RelationshipIndex × SideExplanation
  explain_group g side m kind name =
      if contains (map lower m.direct) (lower name)
      then (g, record (explanation side group) { via = some name; chain = m.node.name ∷ name ∷ [] })
      else (let found = node lower g kind name in
          (found.0, nested side m name (path_to found.0 m.node found.1)))

  unfoldable pub explain_groups :
      RelationshipIndex
      → String
      → Membership
      → NodeKind
      → List String
      → RelationshipIndex × List SideExplanation
  unfolding node membership_path
  explain_groups g side m kind [] = (g, [])
  explain_groups g side m kind (name ∷ rest) =
      let one = explain_group g side m kind name in
      let more = explain_groups one.0 side m kind rest in (more.0, one.1 ∷ more.1)

  abbrev pub listed_groups : RuleSide → Membership → List String
  listed_groups r m =
      filter (λ g. contains (all_groups m) (lower g))
        (sorted (λ a b. str_lt (lower a) (lower b)) r.groups)

  abbrev extra : String → ℕ → List SideExplanation
  extra side n = if eqb n 0 then [] else record (explanation side more) { count = n } ∷ []

  -- What the object's groups explain.
  unfoldable pub by_groups :
      RelationshipIndex
      → String
      → RuleSide
      → NodeKind
      → Option Membership
      → RelationshipIndex × List SideExplanation
  unfolding explain_groups
  by_groups g side r kind none = (g, [])
  by_groups g side r kind (some m) =
      let listed = listed_groups r m in
      let shown = explain_groups g side m kind (take 20 listed) in
      (shown.0, shown.1 ++ extra side (length listed - 20))

  abbrev pub is_absent : Option Membership → Bool
  is_absent none = true
  is_absent (some _) = false

  abbrev or_nothing : String → Bool → List SideExplanation → List SideExplanation
  or_nothing side is_unknown [] = explanation side (if is_unknown then unknown else none_known) ∷ []
  or_nothing side is_unknown (e ∷ es) = e ∷ es

  abbrev pub direct_one : String → RuleSide → String → List SideExplanation
  direct_one side r object_name =
      if contains (map lower r.names) (lower object_name) then explanation side direct ∷ [] else []

  -- The explanations, by whether the side's category is all.
  unfoldable pub by_category :
      Bool
      → RelationshipIndex
      → String
      → RuleSide
      → Option Membership
      → String
      → NodeKind
      → Bool
      → RelationshipIndex × List SideExplanation
  unfolding by_groups
  by_category true g side r member object_name kind groups_known =
      (g, explanation side whole_category ∷ [])
  by_category false g side r member object_name kind groups_known =
      let grouped = by_groups g side r kind member in
      (
        grouped.0,
        or_nothing side (is_absent member && not groups_known && is_given_any r.groups)
            (direct_one side r object_name ++ grouped.1),
      )

  -- `explain_side`: the index, and the explanations
  unfoldable pub explain_side :
      RelationshipIndex
      → String
      → RuleSide
      → Option Membership
      → String
      → NodeKind
      → Bool
      → RelationshipIndex × List SideExplanation
  unfolding by_category
  explain_side g side r member object_name kind groups_known =
      by_category r.category_all g side r member object_name kind groups_known
