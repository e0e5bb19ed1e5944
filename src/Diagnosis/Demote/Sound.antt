-- ===== src/Diagnosis/Demote/Sound.antt =====
-- What demotes a diagnosis to a related symptom.
use ipa_diagnose.Base.{
  ◌≡◌, refl, String, Bool, true, false, ◌&&◌, not, List, [], ◌∷◌, arith, leb, contains, filter,
  Bool-cases, inl, inr, ◌⊎◌, string_eq, All, All-append, All-kept,
}
use ipa_diagnose.Base.Dict.{Dict}
use ipa_diagnose.Diagnosis.Types.{Diagnosis, Surroundings, is_diagnosed}
use ipa_diagnose.Diagnosis.Rank.{evidence_rank, is_real_problem}
use ipa_diagnose.Diagnosis.Causes.{effective_pack, implicit_cause, is_safety_net}
use ipa_diagnose.Diagnosis.Demote.{
  is_cause, declared_causes, possible_causes, absorbs_net, absorbs, causes_of,
}

-- `u` may be named as the cause of `d`: it is a real problem that can break other parts, `d` does not
-- rule out its pack, and it is DIAGNOSED, or else `d` is not DIAGNOSED either and its evidence is no
-- more severe.
pub record IsCauseOf (d u : Diagnosis) : Type 0 where
  pub real : is_real_problem u ≡ true
  pub explains : u.explains_downstream ≡ true
  pub not_ruled_out : contains d.not_caused_by (effective_pack u) ≡ false
  pub confirmed :
      (is_diagnosed u.status ≡ true)
      ⊎ ((is_diagnosed d.status ≡ false) × (leb (evidence_rank d) (evidence_rank u) ≡ true))

All-any : {A : Type 0} (l : List A) → All (λ (a : A). Unit {0}) l
All-any [] = tt
All-any (x ∷ l) = (tt, All-any l)

-- The part of `IsCauseOf` that holds before the absorbing rules.
abbrev IsPossible : Diagnosis → Diagnosis → Type 0
IsPossible d u =
    (is_real_problem u ≡ true)
    × ((u.explains_downstream ≡ true) × (contains d.not_caused_by (effective_pack u) ≡ false))

declared_causes-IsPossible :
    (d : Diagnosis) (diagnoses : List Diagnosis) → All (IsPossible d) (declared_causes diagnoses d)
unfolding declared_causes is_cause
declared_causes-IsPossible d diagnoses =
    All-kept _ (λ u. is_cause u ≡ true) (IsPossible d) (filter is_cause diagnoses)
      (All-kept is_cause (λ _. Unit {0}) (λ u. is_cause u ≡ true) diagnoses (All-any diagnoses)
        (λ u _ e. e))
      (λ u c e. ground (arith, c, e))

and_first : (a b : Bool) → (a && b) ≡ true → a ≡ true
and_first true b h = refl
and_first false b h = h

and_parts :
    (a b c d : Bool) → (a && b && not c && not d) ≡ true → (a ≡ true) × ((b ≡ true) × (d ≡ false))
and_parts a b c d h = ground (arith, h)

module _ (world : Surroundings) (sources : Dict String String) (diagnoses : List Diagnosis) where
  possible_causes-IsPossible :
      (d : Diagnosis) → All (IsPossible d) (possible_causes world sources diagnoses d)
  unfolding possible_causes implicit_cause
  possible_causes-IsPossible d =
      All-append (IsPossible d) (declared_causes diagnoses d) _
        (declared_causes-IsPossible d diagnoses)
        (All-kept _ (λ _. Unit {0}) (IsPossible d) diagnoses (All-any diagnoses)
          λ u _ e.
            let parts =
              and_parts (implicit_cause d u) (is_real_problem u) _
                (contains d.not_caused_by (effective_pack u)) e in
            (parts.1.0, (and_first u.explains_downstream _ parts.0, parts.1.1)))

  by_net :
      (d u : Diagnosis)
      → absorbs_net world sources diagnoses d u ≡ true
      → is_diagnosed u.status ≡ true
  unfolding absorbs_net
  by_net d u a = ground (arith, a)

  by_rule :
      (d u : Diagnosis)
      → absorbs world sources diagnoses d u ≡ true
      → (is_diagnosed u.status ≡ true)
        ⊎ ((is_diagnosed d.status ≡ false) × (leb (evidence_rank d) (evidence_rank u) ≡ true))
  unfolding absorbs
  by_rule d u a = elim (Bool-cases (is_diagnosed u.status)) [
    | inl e ↦ inl e
    | inr e ↦ inr (ground (arith, a, e))
  ]

  -- Every cause that demotes a diagnosis is a real problem that can break other parts and whose pack
  -- the diagnosis does not rule out; and it is DIAGNOSED itself, unless the diagnosis is not
  -- DIAGNOSED either and no more severe: an unconfirmed problem never hides a confirmed one.
  pub causes_of-IsCauseOf :
      (d : Diagnosis) → All (IsCauseOf d) (causes_of world sources diagnoses d)
  unfolding causes_of
  causes_of-IsCauseOf d = elim (Bool-cases (is_safety_net d)) [
    | inl e ↦ rw e (
        All-kept (absorbs_net world sources diagnoses d) (IsPossible d) (IsCauseOf d) _
          (possible_causes-IsPossible d)
          (λ u k a. record {
            real = k.0;
            explains = k.1.0;
            not_ruled_out = k.1.1;
            confirmed = inl (by_net d u a);
          }))
    | inr e ↦ rw e (
        All-kept (absorbs world sources diagnoses d) (IsPossible d) (IsCauseOf d) _
          (possible_causes-IsPossible d)
          (λ u k a. record {
            real = k.0;
            explains = k.1.0;
            not_ruled_out = k.1.1;
            confirmed = by_rule d u a;
          }))
  ]
