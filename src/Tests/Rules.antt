-- ===== src/Tests/Rules.antt =====
-- Runs of ipa_diagnose/access/relations.py.
use ipa_diagnose.Base.{
  arith, ◌≡◌, refl, String, true, false, none, some, [], ◌∷◌, any, contains, is_some, string_eq,
  option_eq, pair_eq, filter,
}
use ipa_diagnose.Base.Dict.{get}
use ipa_diagnose.Access.Index.{
  user, group, node_kind_eq, edge_kind_eq, Node, Edge, member_of, RelationshipIndex, empty, key,
  add_memberships, membership_path,
}
use ipa_diagnose.Access.Index.Path.{
  IsWellFormed, add_memberships-IsWellFormed, IsChain, membership_path-IsChain,
}
use ipa_diagnose.Access.Index.Fuel.{membership_path-total}
use ipa_diagnose.Access.Explain.{RuleSide, Membership, explain_side}
use ipa_diagnose.Access.Explain.Covered.{is_reason, covers, explain_side-covers}

abbrev lower : String → String
lower s = s

abbrev john : Node
john = record { kind = user; name = "john" }

abbrev admins : Node
admins = record { kind = group; name = "admins" }

abbrev joins : Edge
joins = record {
  src = john;
  dst = admins;
  kind = member_of;
  source = "user_show john";
  side = none;
}

-- john is a member of admins.
abbrev small : RelationshipIndex
small = record (empty 10 10) {
  nodes = (key lower admins, admins) ∷ [];
  out = (key lower john, joins ∷ []) ∷ [];
}

small-IsWellFormed : IsWellFormed lower small
small-IsWellFormed = record {
  few_nodes = omega arith;
  few_edges = omega arith;
  starts = ((refl, tt), tt);
}

add_memberships-IsWellFormed_example : IsWellFormed lower (
    add_memberships lower small (some admins) group ("staff" ∷ []) ("all" ∷ []) "group_show admins")
add_memberships-IsWellFormed_example =
    add_memberships-IsWellFormed lower small (some admins) group ("staff" ∷ []) ("all" ∷ [])
      "group_show admins" small-IsWellFormed

membership_path-total_example : is_some (membership_path lower small john admins 50) ≡ true
membership_path-total_example = membership_path-total lower small john admins 50

membership_path-IsChain_example : IsChain lower (key lower john) (joins ∷ []) (key lower admins)
unfolding membership_path pair_eq node_kind_eq filter get string_eq edge_kind_eq contains
membership_path-IsChain_example =
    membership_path-IsChain lower small john admins 50 (joins ∷ []) small-IsWellFormed refl

abbrev side_of_rule : RuleSide
side_of_rule = record { category_all = false; names = []; groups = "admins" ∷ [] }

abbrev memberships : Membership
memberships = record { node = john; direct = "admins" ∷ []; indirect = [] }

explain_side-covers_example :
    any
      (λ x. is_reason x.how)
      (explain_side lower lower small "user" side_of_rule (some memberships) "john" group true).1
    ≡ covers lower lower side_of_rule (some memberships) "john"
explain_side-covers_example =
    explain_side-covers lower lower small "user" side_of_rule (some memberships) "john" group true

covered : covers lower lower side_of_rule (some memberships) "john" ≡ true
unfolding any contains string_eq
covered = refl
