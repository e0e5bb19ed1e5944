-- ===== src/Base/Strings.antt =====
-- Python strings: characters, order, and the sorted collections that the program builds of them.
use Prim.Native.Nat.{ℕ, Ordering}
use Prim.Native.String
use Prim.Native.String.append
use Prim.Native.Char.{Char, code}
use Prim.Native.String.{String, ◌++◌ as ◌<>◌}
use mathlib.Core.Path.{◌≡◌, refl, ap, ◌∙◌}
use mathlib.Core.List.{List, [], ◌∷◌, ◌++◌, foldr}
use mathlib.Core.Bool.{Bool, true, false, ◌||◌}
use native.Mathlib.Omega.{arith}
use ipa_diagnose.Base.Lists.{any, All}
use ipa_diagnose.Base.Tests.{if◌then◌else◌, eqb, Bool-cases}
use mathlib.Core.Logic.{inl, inr}

unfoldable pub chars : String → List Char
chars String.[] = []
chars (String.◌∷◌ c s) = c ∷ chars s

abbrev pub text : List Char → String
text [] = String.[]
text (c ∷ l) = String.◌∷◌ c (text l)

pub chars-text : (t : List Char) → chars (text t) ≡ t
unfolding chars
chars-text [] = refl
chars-text (c ∷ t) = ap (λ r. c ∷ r) (chars-text t)

pub chars-append : (s t : String) → chars (s <> t) ≡ chars s ++ chars t
unfolding chars
chars-append String.[] t = ap chars (append.nil t)
chars-append (String.◌∷◌ c s) t = ap chars (append.cons c s t) ∙ ap (λ r. c ∷ r) (chars-append s t)

-- `s.partition(sep)[0]` for a separator of one character
unfoldable pub before : ℕ → List Char → List Char
before n [] = []
before n (c ∷ r) = let rest = before n r in if eqb (code c) n then [] else c ∷ rest

-- `s < t`, by code points
abbrev pub str_lt : String → String → Bool
str_lt s t = elim (String.compare s t) [ Ordering.lt ↦ true | _ ↦ false ]

abbrev pub insert_new : String → List String → List String
insert_new s [] = s ∷ []
insert_new s (t ∷ l) = elim (String.compare s t) [
  | Ordering.lt ↦ s ∷ t ∷ l
  | Ordering.eq ↦ t ∷ l
  | Ordering.gt ↦ t ∷ insert_new s l
]

-- `sorted(set(l))`
unfoldable pub sorted_set : List String → List String
sorted_set l = foldr insert_new [] l

-- `sorted(l, key=...)`, for the order that `lt` gives to the keys; equal keys keep their order.
module _ {ℓ} {A : Type ℓ} (lt : A → A → Bool) where
  unfoldable pub insert_sorted : A → List A → List A
  insert_sorted x [] = x ∷ []
  insert_sorted x (y ∷ l) = let rest = insert_sorted x l in if lt y x then y ∷ rest else x ∷ y ∷ l

  unfoldable pub sorted : List A → List A
  unfolding insert_sorted
  sorted [] = []
  sorted (x ∷ l) = insert_sorted x (sorted l)

-- A sorted list has the elements of the list.
any-insert_sorted :
    {A : Type 0} (lt : A → A → Bool) (p : A → Bool) (x : A) (l : List A)
    → any p (insert_sorted lt x l) ≡ (p x || any p l)
unfolding insert_sorted any
any-insert_sorted lt p x [] = refl
any-insert_sorted lt p x (y ∷ l) = ground (arith, any-insert_sorted lt p x l)

pub any-sorted :
    {A : Type 0} (lt : A → A → Bool) (p : A → Bool) (l : List A) → any p (sorted lt l) ≡ any p l
unfolding sorted any
any-sorted lt p [] = refl
any-sorted lt p (x ∷ l) = rw (any-insert_sorted lt p x (sorted lt l), any-sorted lt p l) refl

All-insert_sorted {κ} :
    {A : Type 0} (P : A → Type κ) (lt : A → A → Bool) (x : A) (l : List A)
    → P x
    → All P l
    → All P (insert_sorted lt x l)
unfolding insert_sorted
All-insert_sorted P lt x [] p h = (p, tt)
All-insert_sorted P lt x (y ∷ l) p h = elim (Bool-cases (lt y x)) [
  | inl e ↦ rw e (h.0, All-insert_sorted P lt x l p h.1)
  | inr e ↦ rw e (p, h)
]

-- What holds of every element still holds after sorting.
pub All-sorted {κ} :
    {A : Type 0} (P : A → Type κ) (lt : A → A → Bool) (l : List A) → All P l → All P (sorted lt l)
unfolding sorted
All-sorted P lt [] h = tt
All-sorted P lt (x ∷ l) h = All-insert_sorted P lt x (sorted lt l) h.0 (All-sorted P lt l h.1)
