-- ===== src/Diagnosis/Report/Primary.antt =====
-- Which root candidate becomes PRIMARY.
use ipa_diagnose.Base.{
  ℕ, ◌+◌, ◌≤◌, ◌≡◌, refl, sym, subst, length, filter, string_eq, String, Bool, true, false, ◌&&◌,
  ◌||◌, not, Option, none, some, List, [], ◌∷◌, map, arith, Bool-cases, inl, inr, All,
}
use ipa_diagnose.Base.Strings.{sorted, insert_sorted}
use ipa_diagnose.Diagnosis.Types.{Diagnosis, is_diagnosed}
use ipa_diagnose.Base.Dict.{get}
use ipa_diagnose.Diagnosis.Demote.{Demotions}
use ipa_diagnose.Diagnosis.Status.{is_primary}
use ipa_diagnose.Diagnosis.Rank.{is_backed, root_lt}
use ipa_diagnose.Diagnosis.Report.{
  candidates, ranked, placed, place, is_warning, is_first, assign, prioritize,
}

abbrev Numbered : Type 0
Numbered = ℕ × Diagnosis

abbrev lt : Numbered → Numbered → Bool
lt a b = root_lt a.1 b.1

-- The first of a list is backed by ERROR evidence, or nothing in the list is.
abbrev pub HeadIsBacked : List (ℕ × Diagnosis) → Type 0
HeadIsBacked [] = Unit
HeadIsBacked (e ∷ l) = is_backed e.1 ≡ false → All (λ a. is_backed a.1 ≡ false) l

-- The order of two pairs of a Boolean and a number, by the Boolean first.
abbrev by_keys : Bool → Bool → Bool → Bool
by_keys p q s = (p && not q) || (not (p && not q) && not (q && not p) && s)

by_keys_unbacked : (p q s : Bool) → by_keys p q s ≡ true → p ≡ false → q ≡ false
by_keys_unbacked p false s h k = refl
by_keys_unbacked true true s h k = k
by_keys_unbacked false true s h k = sym h

by_keys_backed : (p q s : Bool) → by_keys p q s ≡ false → q ≡ false → p ≡ false
by_keys_backed false q s h k = refl
by_keys_backed true true s h k = k
by_keys_backed true false s h k = h

root_lt_unbacked :
    (a b : Diagnosis) → root_lt a b ≡ true → is_backed a ≡ false → is_backed b ≡ false
unfolding root_lt
root_lt_unbacked a b h k = by_keys_unbacked (is_backed a) (is_backed b) _ h k

root_lt_backed : (a b : Diagnosis) → root_lt a b ≡ false → is_backed b ≡ false → is_backed a ≡ false
unfolding root_lt
root_lt_backed a b h k = by_keys_backed (is_backed a) (is_backed b) _ h k

pub All-insert_sorted :
    {A : Type 0} (P : A → Type 0) (before : A → A → Bool) (x : A) (l : List A)
    → P x
    → All P l
    → All P (insert_sorted before x l)
unfolding insert_sorted
All-insert_sorted P before x [] p h = (p, tt)
All-insert_sorted P before x (y ∷ l) p h = elim (Bool-cases (before y x)) [
  | inl e ↦ rw e (h.0, All-insert_sorted P before x l p h.1)
  | inr e ↦ rw e (p, h)
]

insert-HeadIsBacked :
    (x : Numbered) (l : List Numbered) → HeadIsBacked l → HeadIsBacked (insert_sorted lt x l)
insert-HeadIsBacked x [] h = unfold insert_sorted in λ _. tt
insert-HeadIsBacked x (y ∷ l) h = elim (Bool-cases (lt y x)) [
  | inl e ↦
      unfold insert_sorted in
      rw e λ weak.
        All-insert_sorted (λ a. is_backed a.1 ≡ false) lt x l (root_lt_unbacked y.1 x.1 e weak)
          (h weak)
  | inr e ↦
      unfold insert_sorted in
      rw e λ weak. (root_lt_backed y.1 x.1 e weak, h (root_lt_backed y.1 x.1 e weak))
]

sorted-HeadIsBacked : (l : List Numbered) → HeadIsBacked (sorted lt l)
unfolding sorted
sorted-HeadIsBacked [] = tt
sorted-HeadIsBacked (x ∷ l) = insert-HeadIsBacked x (sorted lt l) (sorted-HeadIsBacked l)

-- If the first of the ranked root candidates, the one that becomes PRIMARY, is not backed by ERROR
-- evidence, then no other root candidate is: WARNING-level evidence never outranks ERROR-level
-- evidence.
pub ranked_backed :
    (l : List (Diagnosis × Bool)) (n : ℕ) (d : Diagnosis) (rest : List (ℕ × Diagnosis))
    → ranked l ≡ (n, d) ∷ rest
    → is_backed d ≡ false
    → All (λ a. is_backed a.1 ≡ false) rest
unfolding ranked
ranked_backed l n d rest e weak =
    let head : HeadIsBacked ((n, d) ∷ rest) =
      subst HeadIsBacked e (sorted-HeadIsBacked (candidates 0 l)) in
    head weak

-- What the first pass has placed, it has not made PRIMARY.
abbrev IsPlaced : Diagnosis × Bool → Type 0
IsPlaced e = e.1 ≡ false → is_primary e.0.priority ≡ false

placed-IsPlaced :
    (done : Demotions) (all : List Diagnosis) (d : Diagnosis) (o : Option (List String))
    → IsPlaced (placed done all d o)
placed-IsPlaced done all d (some causes) h = refl
placed-IsPlaced done all d none h =
    elim (Bool-cases (is_warning d.severity && is_diagnosed d.status)) [
      | inl e ↦ rw e refl
      | inr e ↦ ground (arith, h, e)
    ]

map-IsPlaced : (done : Demotions) (all l : List Diagnosis) → All IsPlaced (map (place done all) l)
unfolding place
map-IsPlaced done all [] = tt
map-IsPlaced done all (d ∷ l) =
    (placed-IsPlaced done all d (get done.0 d.diagnosis_id), map-IsPlaced done all l)

unfoldable primaries : List Diagnosis → List Diagnosis
unfolding filter
primaries l = filter (λ d. is_primary d.priority) l

-- Behind the place of the first root candidate there is no PRIMARY.
assigned_behind :
    (roots : List Numbered) (n m : ℕ) (l : List (Diagnosis × Bool))
    → ((k : ℕ) → n ≤ k → is_first k roots ≡ false)
    → All IsPlaced l
    → length (primaries (assign roots n l)) ≡ 0
unfolding assign primaries filter
assigned_behind roots n m [] h p = refl
assigned_behind roots n m ((d, false) ∷ l) h p =
    rw (p.0 refl) (assigned_behind roots (n + 1) m l (λ k le. h k (omega arith)) p.1)
assigned_behind roots n m ((d, true) ∷ l) h p =
    rw (h n (omega arith)) (assigned_behind roots (n + 1) m l (λ k le. h k (omega arith)) p.1)

is_first_once :
    (roots : List Numbered) (n k : ℕ)
    → is_first n roots ≡ true
    → n + 1 ≤ k
    → is_first k roots ≡ false
is_first_once [] n k h le = refl
is_first_once ((m, d) ∷ l) n k h le = ground (arith, h)

assigned_once :
    (roots : List Numbered) (n : ℕ) (l : List (Diagnosis × Bool))
    → All IsPlaced l
    → length (primaries (assign roots n l)) ≤ 1
unfolding assign primaries filter
assigned_once roots n [] p = omega arith
assigned_once roots n ((d, false) ∷ l) p = rw (p.0 refl) (assigned_once roots (n + 1) l p.1)
assigned_once roots n ((d, true) ∷ l) p = elim (Bool-cases (is_first n roots)) [
  | inl e ↦
      rw e (
        omega (arith, assigned_behind roots (n + 1) n l (λ k le. is_first_once roots n k e le) p.1))
  | inr e ↦ rw e (assigned_once roots (n + 1) l p.1)
]

-- At most one diagnosis of a report is PRIMARY.
pub prioritize_once :
    (done : Demotions) (diagnoses : List Diagnosis)
    → length (filter (λ d. is_primary d.priority) (prioritize done diagnoses)) ≤ 1
unfolding prioritize primaries
prioritize_once done diagnoses =
    let l = map (place done diagnoses) diagnoses in
    assigned_once (ranked l) 0 l (map-IsPlaced done diagnoses diagnoses)
