-- ===== src/Diagnosis/Report/Chosen.antt =====
-- A report with a root candidate has a PRIMARY diagnosis.
use ipa_diagnose.Base.{
  ℕ, ◌+◌, ◌≡◌, refl, ◌∙◌, Bool, true, false, or_true, List, [], ◌∷◌, map, arith, eqb, any, All,
  All-mono, ◌⊎◌, inl, inr,
}
use ipa_diagnose.Base.Strings.{sorted, any-sorted}
use ipa_diagnose.Diagnosis.Types.{Diagnosis}
use ipa_diagnose.Diagnosis.Rank.{root_lt}
use ipa_diagnose.Diagnosis.Demote.{Demotions}
use ipa_diagnose.Diagnosis.Status.{is_primary}
use ipa_diagnose.Diagnosis.Report.{candidates, ranked, place, assign, prioritize}
use ipa_diagnose.Diagnosis.Report.Primary.{All-insert_sorted}

-- The `m`-th of the list, counted from `n`, is a root candidate.
abbrev IsCandidate : ℕ → List (Diagnosis × Bool) → ℕ → Type 0
IsCandidate n [] m = ⊥
IsCandidate n ((d, b) ∷ l) m = ((m ≡ n) × (b ≡ true)) ⊎ IsCandidate (n + 1) l m

candidates-IsCandidate :
    (n : ℕ) (l : List (Diagnosis × Bool)) → All (λ a. IsCandidate n l a.0) (candidates n l)
unfolding candidates
candidates-IsCandidate n [] = tt
candidates-IsCandidate n ((d, false) ∷ l) =
    All-mono {P = λ a. IsCandidate (n + 1) l a.0} {Q = λ a. IsCandidate n ((d, false) ∷ l) a.0}
      (λ a h. inr h) (candidates (n + 1) l) (candidates-IsCandidate (n + 1) l)
candidates-IsCandidate n ((d, true) ∷ l) = (
  inl (refl, refl),
  All-mono {P = λ a. IsCandidate (n + 1) l a.0} {Q = λ a. IsCandidate n ((d, true) ∷ l) a.0}
      (λ a h. inr h) (candidates (n + 1) l) (candidates-IsCandidate (n + 1) l),
)

All-sorted :
    {A : Type 0} (P : A → Type 0) (before : A → A → Bool) (l : List A)
    → All P l
    → All P (sorted before l)
unfolding sorted
All-sorted P before [] h = tt
All-sorted P before (x ∷ l) h =
    All-insert_sorted P before x (sorted before l) h.0 (All-sorted P before l h.1)

any-candidates :
    (n : ℕ) (l : List (Diagnosis × Bool)) → any (λ a. true) (candidates n l) ≡ any (λ e. e.1) l
unfolding candidates any
any-candidates n [] = refl
any-candidates n ((d, false) ∷ l) = any-candidates (n + 1) l
any-candidates n ((d, true) ∷ l) = refl

assigned_primary :
    (m : ℕ) (d : Diagnosis) (rest : List (ℕ × Diagnosis)) (n : ℕ) (l : List (Diagnosis × Bool))
    → IsCandidate n l m
    → any (λ x. is_primary x.priority) (assign ((m, d) ∷ rest) n l) ≡ true
unfolding assign any
assigned_primary m d rest n [] h = absurd h
assigned_primary m d rest n ((x, false) ∷ l) (inl h) = absurd (ground (arith, h.1))
assigned_primary m d rest n ((x, false) ∷ l) (inr h) =
    rw (assigned_primary m d rest (n + 1) l h) (or_true (is_primary x.priority))
assigned_primary m d rest n ((x, true) ∷ l) (inl h) =
    let here : eqb n m ≡ true = ground (arith, h.0) in rw here refl
assigned_primary m d rest n ((x, true) ∷ l) (inr h) =
    rw (assigned_primary m d rest (n + 1) l h) (or_true _)

ranked_primary :
    (roots : List (ℕ × Diagnosis)) (l : List (Diagnosis × Bool))
    → All (λ a. IsCandidate 0 l a.0) roots
    → any (λ a. true) roots ≡ true
    → any (λ x. is_primary x.priority) (assign roots 0 l) ≡ true
unfolding any
ranked_primary [] l h k = ground (arith, k)
ranked_primary ((m, d) ∷ rest) l h k = assigned_primary m d rest 0 l h.0

-- If the first pass leaves a root candidate, then some diagnosis of the report is PRIMARY.
pub prioritize_some :
    (done : Demotions) (diagnoses : List Diagnosis)
    → any (λ e. e.1) (map (place done diagnoses) diagnoses) ≡ true
    → any (λ x. is_primary x.priority) (prioritize done diagnoses) ≡ true
unfolding prioritize ranked
prioritize_some done diagnoses h =
    let l = map (place done diagnoses) diagnoses in
    ranked_primary (sorted (λ a b. root_lt a.1 b.1) (candidates 0 l)) l
      (All-sorted (λ a. IsCandidate 0 l a.0) (λ a b. root_lt a.1 b.1) (candidates 0 l)
        (candidates-IsCandidate 0 l))
      (any-sorted (λ a b. root_lt a.1 b.1) (λ a. true) (candidates 0 l) ∙ (any-candidates 0 l ∙ h))
