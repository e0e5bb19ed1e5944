-- ===== src/Environment/Graph/Conflict.antt =====
-- What a repeated report of a fact does to the graph (`add_fact`).
use ipa_diagnose.Base.{
  ◌≡◌, ◌≢◌, refl, ap, String, Option, List, string_eq, option_eq, pair_eq, inl, inr, ◌⊎◌, subst,
}
use ipa_diagnose.Base.Dict.{get, get-put_ne}
use ipa_diagnose.Base.Value.{Value}
use ipa_diagnose.TextSafe.Scan.{Unicode}
use ipa_diagnose.Environment.Types.{State, FactKey, EnvironmentGraph, ok}
use ipa_diagnose.Environment.Graph.{add_fact}
use ipa_diagnose.Environment.Graph.Invariant.{Keeps, add_fact-Keeps}

module _ (u : Unicode) (g h : EnvironmentGraph) where
  -- A report changes no fact of another name or another observer, so the answers of two observers
  -- stand side by side and never contradict one another.
  pub add_fact_other_key :
      (subject : Option String) (name : String) (value : Value) (state : State)
      (evidence : List String) (collected_at : Option String) (source : String)
      (observed_from : Option String) (context : List (String × String)) (s n : String)
      (o : Option String)
      → add_fact u g subject name value state evidence collected_at source observed_from context
        ≡ ok h
      → (n ≢ name) ⊎ (o ≢ observed_from)
      → get h.facts (s, (n, o)) ≡ get g.facts (s, (n, o))
  add_fact_other_key subject name value state evidence at source from context s n o e d =
      subst (Keeps (λ h. get h.facts (s, (n, o)) ≡ get g.facts (s, (n, o)))) e (
        add_fact-Keeps u g (λ h. get h.facts (s, (n, o)) ≡ get g.facts (s, (n, o))) subject name
          value state evidence at source from context (λ _. refl)
          (λ t _ old _. get-put_ne g.facts _ _ _ (other t))
          (λ t _ _ _. get-put_ne g.facts _ _ _ (other t)))
    where
      other : (t : String) → ◌≢◌ {A = FactKey} (s, (n, o)) (t, (name, from))
      other t p = elim d [ inl ne ↦ ne (ap (λ k. k.1.0) p) | inr ne ↦ ne (ap (λ k. k.1.1) p) ]
