-- ===== src/Access/Explain/Covered.antt =====
-- An explanation is given exactly for the sides that cover the object.
use ipa_diagnose.Base.{
  ℕ, ◌-◌, ◌≡◌, refl, ◌∙◌, String, Bool, true, false, ◌&&◌, ◌||◌, not, Option, none, some, List, [],
  ◌∷◌, ◌++◌, map, arith, eqb, length, contains, filter, any, take, string_eq, Bool-cases, inl, inr,
}
use ipa_diagnose.Base.Strings.{any-sorted, sorted, str_lt}
use ipa_diagnose.Access.Index.{NodeKind, RelationshipIndex}
use ipa_diagnose.Access.Explain.{
  RuleSide, How, none_known, unknown, SideExplanation, Membership, is_given_any, all_groups,
  explain_group, explain_groups, listed_groups, extra, by_groups, or_nothing, direct_one,
  by_category, is_absent, explain_side, nested,
}

-- The answer is a reason why the side matches.
abbrev pub is_reason : How → Bool
is_reason none_known = false
is_reason unknown = false
is_reason _ = true

abbrev gives_reason : List SideExplanation → Bool
gives_reason l = any (λ x. is_reason x.how) l

any-append :
    (l r : List SideExplanation) → gives_reason (l ++ r) ≡ (gives_reason l || gives_reason r)
unfolding any
any-append [] r = refl
any-append (x ∷ l) r = ground (arith, any-append l r)

given-filter : (p : String → Bool) (l : List String) → is_given_any (filter p l) ≡ any p l
unfolding any filter
given-filter p [] = refl
given-filter p (x ∷ l) = ground (arith, given-filter p l)

given-take :
    (l : List String) (b : Bool)
    → (b ≡ true → is_given_any l ≡ true)
    → (is_given_any (take 20 l) || b) ≡ is_given_any l
given-take [] b h = ground (arith, h)
given-take (x ∷ l) b h = refl

reason-extra :
    (lower upper : String → String) (side : String) (n : ℕ)
    → gives_reason (extra lower upper side n) ≡ not (eqb n 0)
unfolding any
reason-extra lower upper side n = ground arith

module _ (lower upper : String → String) where
  abbrev pub in_groups : RuleSide → Option Membership → Bool
  in_groups r none = false
  in_groups r (some m) = any (λ g. contains (all_groups lower upper m) (lower g)) r.groups

  -- What FreeIPA's rule is: the side's category is all, or it lists the object, or it lists one of
  -- the groups that the object is in.
  abbrev pub covers : RuleSide → Option Membership → String → Bool
  covers r member object_name =
      r.category_all || (contains (map lower r.names) (lower object_name) || in_groups r member)

  nested-reason :
      (side : String) (m : Membership) (g : String) (p : Option (List _))
      → is_reason (nested lower upper side m g p).how ≡ true
  nested-reason side m g none = refl
  nested-reason side m g (some []) = refl
  nested-reason side m g (some (e ∷ es)) = refl

  group-reason :
      (g : RelationshipIndex) (side : String) (m : Membership) (kind : NodeKind) (name : String)
      → is_reason (explain_group lower upper g side m kind name).1.how ≡ true
  group-reason g side m kind name = elim (Bool-cases (contains (map lower m.direct) (lower name))) [
    | inl e ↦ rw e refl
    | inr e ↦ rw e (nested-reason side m name _)
  ]

  groups-reason :
      (l : List String) (g : RelationshipIndex) (side : String) (m : Membership) (kind : NodeKind)
      → gives_reason (explain_groups lower upper g side m kind l).1 ≡ is_given_any l
  unfolding explain_groups any
  groups-reason [] g side m kind = refl
  groups-reason (x ∷ l) g side m kind = rw (group-reason g side m kind x) refl

  by_groups-reason :
      (g : RelationshipIndex) (side : String) (r : RuleSide) (kind : NodeKind)
      (member : Option Membership)
      → gives_reason (by_groups lower upper g side r kind member).1 ≡ in_groups r member
  unfolding by_groups any
  by_groups-reason g side r kind none = refl
  by_groups-reason g side r kind (some m) =
      let p = λ (x : String). contains (all_groups lower upper m) (lower x) in
      let listed = listed_groups lower upper r m in
      any-append (explain_groups lower upper g side m kind (take 20 listed)).1
        (extra lower upper side (length listed - 20))
      ∙ (rw
          (
            groups-reason (take 20 listed) g side m kind,
            reason-extra lower upper side (length listed - 20),
          )
          (given-take listed (not (eqb (length listed - 20) 0)) (some_listed listed)
            ∙ (given-filter p (sorted (λ a b. str_lt (lower a) (lower b)) r.groups)
                ∙ any-sorted (λ a b. str_lt (lower a) (lower b)) p r.groups)))
    where
      some_listed : (l : List String) → not (eqb (length l - 20) 0) ≡ true → is_given_any l ≡ true
      some_listed [] h = ground (arith, h)
      some_listed (x ∷ l) h = refl

  nothing-reason :
      (side : String) (u : Bool) (l : List SideExplanation)
      → gives_reason (or_nothing lower upper side u l) ≡ gives_reason l
  unfolding any
  nothing-reason side true [] = refl
  nothing-reason side false [] = refl
  nothing-reason side u (x ∷ l) = refl

  direct-reason :
      (side : String) (r : RuleSide) (object_name : String)
      → gives_reason (direct_one lower upper side r object_name)
        ≡ contains (map lower r.names) (lower object_name)
  unfolding any
  direct-reason side r object_name =
      elim (Bool-cases (contains (map lower r.names) (lower object_name))) [
        | inl e ↦ rw e refl
        | inr e ↦ rw e refl
      ]

  category-reason :
      (b : Bool) (g : RelationshipIndex) (side : String) (r : RuleSide) (member : Option Membership)
      (object_name : String) (kind : NodeKind) (groups_known : Bool)
      → gives_reason (by_category lower upper b g side r member object_name kind groups_known).1
        ≡ (b || (contains (map lower r.names) (lower object_name) || in_groups r member))
  unfolding by_category any
  category-reason true g side r member object_name kind groups_known = refl
  category-reason false g side r member object_name kind groups_known =
      nothing-reason side
        (is_absent lower upper member && not groups_known && is_given_any r.groups)
        (direct_one lower upper side r object_name
          ++ (by_groups lower upper g side r kind member).1)
      ∙ (any-append (direct_one lower upper side r object_name)
            (by_groups lower upper g side r kind member).1
          ∙ rw (direct-reason side r object_name, by_groups-reason g side r kind member) refl)

  -- The explanations of a rule's side hold a reason exactly if the side covers the object: its
  -- category is all, or it lists the object, or it lists one of the object's direct or indirect
  -- groups; the bound on the explanations that are shown loses no answer.
  pub explain_side-covers :
      (g : RelationshipIndex) (side : String) (r : RuleSide) (member : Option Membership)
      (object_name : String) (kind : NodeKind) (groups_known : Bool)
      → any
          (λ x. is_reason x.how)
          (explain_side lower upper g side r member object_name kind groups_known).1
        ≡ covers r member object_name
  unfolding explain_side
  explain_side-covers g side r member object_name kind groups_known =
      category-reason r.category_all g side r member object_name kind groups_known
