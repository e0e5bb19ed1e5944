-- ===== src/Environment/Graph/Settled.antt =====
-- What becomes of a settled fact of an `EnvironmentGraph` in any later calls.
use ipa_diagnose.Base.{
  ◌≡◌, ◌≢◌, ◌⊎◌, inl, inr, refl, sym, ◌∙◌, arith, ◌==◌, ==_iff, not, String, Option, Option-cases,
  none, some, some-injective, List, [], ◌∷◌, Bool-cases, string_eq, option_eq, pair_eq, subst, ◌||◌,
  leb, length,
}
use ipa_diagnose.Base.Dict.{get, put, has, get-put}
use ipa_diagnose.Base.Value.{value_eq}
use ipa_diagnose.TextSafe.Scan.{Unicode}
use ipa_diagnose.TextSafe.{sanitize_text}
use ipa_diagnose.Environment.Types.{
  Kind, Rel, State, established, unknown, contradicted, Fact, FactKey, EnvironmentGraph, Result, ok,
  raise, rel_eq, max_entities, max_relations, ref,
}
use ipa_diagnose.Environment.Graph.{
  add_entity, add_relation, set_enumeration, merge_fact, merge_states, kind_in, sources, targets,
}
use ipa_diagnose.Environment.Graph.Invariant.{Keeps, add_fact-Keeps}
use ipa_diagnose.Environment.Graph.Reach.{
  Call, entity, fact, relation, enumerate, or_else, or_else_first, call, build,
}

-- `f` is `old`, or it is `old` contradicted: with its value, and no longer established.
abbrev pub Follows : Fact → Fact → Type 0
Follows old f =
    (f ≡ old) ⊎ ((old.state ≡ established) × (f.state ≡ contradicted) × (f.value ≡ old.value))

merge_states-Follows :
    (a b : State) (old new : Fact)
    → old.state ≡ a
    → a ≢ unknown
    → Follows old (merge_states a b old new)
merge_states-Follows unknown b old new e n = absurd (n refl)
merge_states-Follows contradicted b old new e n = inl refl
merge_states-Follows established unknown old new e n = inl refl
merge_states-Follows established contradicted old new e n = inl refl
merge_states-Follows established established old new e n =
    elim (Bool-cases (value_eq old.value new.value)) [
      | inl same ↦ rw same (inl refl)
      | inr differ ↦ rw differ (inr (e, refl, refl))
    ]

Follows-trans : (a b c : Fact) → Follows a b → Follows b c → Follows a c
Follows-trans a b c (inl e) k = subst (λ x. Follows x c) e k
Follows-trans a b c (inr h) (inl e) = inr (h.0, rw e h.1, rw e h.2)
Follows-trans a b c (inr h) (inr k) = absurd (ground (arith, h, k))

settled_Follows : (a b : Fact) → Follows a b → a.state ≢ unknown → b.state ≢ unknown
settled_Follows a b (inl e) n = rw e n
settled_Follows a b (inr h) n = λ e. ground (arith, h, e)

-- The graph has a fact under the key that follows `old`.
abbrev pub Holds : FactKey → Fact → EnvironmentGraph → Type 0
Holds k old g = (f : Fact) × (get g.facts k ≡ some f) × Follows old f

module _ (u : Unicode) (g : EnvironmentGraph) (k : FactKey) (old : Fact)
    (found : get g.facts k ≡ some old) (settled : old.state ≢ unknown) where
  put_merged :
      (j : FactKey) (there new : Fact)
      → get g.facts j ≡ some there
      → Holds k old (record g { facts = put g.facts j (merge_fact there new) })
  unfolding merge_fact
  put_merged j there new e = elim (Bool-cases (k == j)) [
    | inl s ↦
        (let same : k ≡ j = (==_iff k j).0 s in
          let it : there ≡ old =
            some-injective _ _ (sym e ∙ subst (λ i. get g.facts i ≡ some old) same found) in
          (
            merge_fact there new,
            rw (get-put g.facts j k (merge_fact there new), s) refl,
            subst (λ f. Follows f (merge_fact there new)) it
                (merge_states-Follows there.state new.state there new refl
                  (subst (λ f. f.state ≢ unknown) (sym it) settled)),
          ))
    | inr s ↦ (old, rw (get-put g.facts j k (merge_fact there new), s) found, inl refl)
  ]

  put_new :
      (j : FactKey) (new : Fact)
      → get g.facts j ≡ none
      → Holds k old (record g { facts = put g.facts j new })
  put_new j new e = elim (Bool-cases (k == j)) [
    | inl s ↦
        (let p : none ≡ some old =
            sym e ∙ subst (λ i. get g.facts i ≡ some old) ((==_iff k j).0 s) found in
          absurd (ground (arith, p)))
    | inr s ↦ (old, rw (get-put g.facts j k new, s) found, inl refl)
  ]

  -- A call that leaves the facts alone, or raises.
  kept : (r : Result EnvironmentGraph) → Keeps (Holds k old) r → Holds k old (or_else g r)
  kept (ok h) p = p
  kept (raise e) p = (old, found, inl refl)

  kept_first :
      (r : Result (EnvironmentGraph × Option String))
      → Keeps (λ a. a.0.facts ≡ g.facts) r
      → Holds k old (or_else_first g r)
  kept_first (ok h) p = (old, rw p found, inl refl)
  kept_first (raise e) p = (old, found, inl refl)

  entity_facts :
      (kind : Kind) (key : String) (owner scope : Option String) (evidence : List String)
      → Keeps (λ a. a.0.facts ≡ g.facts) (add_entity u g kind key owner scope evidence)
  unfolding add_entity
  entity_facts kind key owner scope evidence = elim (Bool-cases (key == "")) [
    | inl e ↦ rw e tt
    | inr e ↦ rw e (elim (Option-cases (get g.entities (ref kind (sanitize_text u key 300)))) [
      | inl absent ↦ rw absent (elim (Bool-cases (leb max_entities (length g.entities))) [
        | inl full ↦ rw full refl
        | inr room ↦ rw room refl
      ])
      | inr (e2, there) ↦ rw there refl
    ])
  ]

  relation_facts :
      (kind : Rel) (src dst : Option String) (evidence : List String)
      → Keeps (Holds k old) (add_relation g kind src dst evidence)
  unfolding add_relation
  relation_facts kind none dst evidence = (old, found, inl refl)
  relation_facts kind (some src) none evidence = (old, found, inl refl)
  relation_facts kind (some src) (some dst) evidence =
      elim (Bool-cases (not (has g.entities src) || not (has g.entities dst))) [
        | inl e ↦ rw e tt
        | inr e ↦
            rw e
              (elim (Bool-cases
                (not (kind_in src (sources kind)) || not (kind_in dst (targets kind)))) [
                  | inl e ↦ rw e tt
                  | inr e ↦ rw e (elim (Bool-cases (has g.relations (kind, (src, dst)))) [
                    | inl e ↦ rw e (old, found, inl refl)
                    | inr e ↦ rw e (elim (Bool-cases (leb max_relations (length g.relations))) [
                      | inl e ↦ rw e (old, found, inl refl)
                      | inr e ↦ rw e (old, found, inl refl)
                    ])
                  ])
                ])
      ]

  call-Holds : (c : Call) → Holds k old (call u g c)
  unfolding call set_enumeration
  call-Holds (entity kind key owner scope evidence) =
      kept_first _ (entity_facts kind key owner scope evidence)
  call-Holds (fact subject name value state evidence at source from context) = kept _ (
      add_fact-Keeps u g (Holds k old) subject name value state evidence at source from context
        (λ d. (old, found, inl refl)) (λ s known there e. put_merged _ there _ e)
        (λ s known absent room. put_new _ _ absent))
  call-Holds (relation kind src dst evidence) = kept _ (relation_facts kind src dst evidence)
  call-Holds (enumerate name status kind members reason scope) = (old, found, inl refl)

-- Whatever sequence of calls follows (a call that raises changes nothing), a fact that is
-- ESTABLISHED or CONTRADICTED is never lost and its value is never replaced: it stays as it is, or
-- an ESTABLISHED one becomes CONTRADICTED with its value. So a contradiction is final.
pub build-Follows :
    (u : Unicode) (g : EnvironmentGraph) (calls : List Call) (k : FactKey) (old : Fact)
    → get g.facts k ≡ some old
    → old.state ≢ unknown
    → Holds k old (build u g calls)
unfolding build
build-Follows u g [] k old found settled = (old, found, inl refl)
build-Follows u g (c ∷ cs) k old found settled =
    let one = call-Holds u g k old found settled c in
    let rest =
      build-Follows u (call u g c) cs k one.0 one.1 (settled_Follows old one.0 one.2 settled) in
    (rest.0, rest.1, Follows-trans old one.0 rest.0 one.2 rest.2)
