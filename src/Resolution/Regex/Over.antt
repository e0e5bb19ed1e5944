-- ===== src/Resolution/Regex/Over.antt =====
-- A text that a pattern matches has only characters of the pattern's classes.
use ipa_diagnose.Base.{
  and_left, and_right, ◌≡◌, refl, subst, arith, ℕ, zero, suc, Char, code, Bool, true, false, ◌||◌,
  List, [], ◌∷◌, inl, inr, any, all, All, Bool-cases,
}
use ipa_diagnose.Resolution.Regex.{
  Class, Regex, never, empty, one, seq, alt, upto, star, in_range, in_class, nullable, followed,
  either, after, matches, within, covers, over, begins,
}

or_right : (a b : Bool) → a ≡ false → (a || b) ≡ true → b ≡ true
or_right true b h e = ground (arith, h)
or_right false b h e = e

within-in_class :
    (p : Class) (r : ℕ × ℕ) (n : ℕ) → within p r ≡ true → in_range n r ≡ true → in_class p n ≡ true
unfolding in_class any
within-in_class [] r n h e = ground arith
within-in_class (q ∷ p) r n h e = ground (arith, within-in_class p r n)

-- A class that covers another has its characters.
pub covers-in_class :
    (p k : Class) (n : ℕ) → covers p k ≡ true → in_class k n ≡ true → in_class p n ≡ true
unfolding in_class covers any all
covers-in_class p [] n h e = ground arith
covers-in_class p (r ∷ k) n h e = elim (Bool-cases (in_range n r)) [
  | inl i ↦ within-in_class p r n (and_left _ _ h) i
  | inr i ↦ covers-in_class p k n (and_right (within p r) _ h) (or_right _ _ i e)
]

not_both : (b : Bool) → b ≡ true → b ≡ false → ⊥
not_both true h e = ground (arith, e)
not_both false h e = ground (arith, h)

-- A character outside `p` ends every match of a pattern that begins with `p`.
dies :
    (p : Class) (n : ℕ) (r : Regex) → in_class p n ≡ false → begins p r ≡ true → after n r ≡ never
unfolding after begins
dies p n never o h = refl
dies p n empty o h = refl
dies p n (one k) o h = elim (Bool-cases (in_class k n)) [
  | inl e ↦ absurd (not_both _ (covers-in_class p k n h e) o)
  | inr e ↦ rw e refl
]
dies p n (seq r s) o h = elim (Bool-cases (nullable r)) [
  | inl e ↦ rw (e, dies p n r o (and_left _ _ h)) (dies p n s o (ground (arith, h, e)))
  | inr e ↦ rw (e, dies p n r o (and_left _ _ h)) refl
]
dies p n (alt r s) o h =
    rw (dies p n r o (and_left _ _ h)) (dies p n s o (and_right (begins p r) _ h))
dies p n (upto zero r) o h = refl
dies p n (upto (suc m) r) o h = rw (dies p n r o h) refl
dies p n (star r) o h = rw (dies p n r o h) refl

over-begins : (p : Class) (r : Regex) → over p r ≡ true → begins p r ≡ true
unfolding over begins
over-begins p never h = refl
over-begins p empty h = refl
over-begins p (one k) h = h
over-begins p (seq r s) h =
    let a = over-begins p r (and_left _ _ h) in
    let b = over-begins p s (and_right (over p r) _ h) in ground (arith, a, b)
over-begins p (alt r s) h =
    let a = over-begins p r (and_left _ _ h) in
    let b = over-begins p s (and_right (over p r) _ h) in ground (arith, a, b)
over-begins p (upto n r) h = over-begins p r h
over-begins p (star r) h = over-begins p r h

over-followed :
    (p : Class) (r s : Regex) → over p r ≡ true → over p s ≡ true → over p (followed r s) ≡ true
unfolding over
over-followed p never s h e = refl
over-followed p empty s h e = e
over-followed p (one k) s h e = ground (arith, h, e)
over-followed p (seq a b) s h e = ground (arith, h, e)
over-followed p (alt a b) s h e = ground (arith, h, e)
over-followed p (upto n a) s h e = ground (arith, h, e)
over-followed p (star a) s h e = ground (arith, h, e)

over-either :
    (p : Class) (r s : Regex) → over p r ≡ true → over p s ≡ true → over p (either r s) ≡ true
unfolding over
over-either p never s h e = e
over-either p empty s h e = e
over-either p (one k) s h e = ground (arith, h, e)
over-either p (seq a b) s h e = ground (arith, h, e)
over-either p (alt a b) s h e = ground (arith, h, e)
over-either p (upto n a) s h e = ground (arith, h, e)
over-either p (star a) s h e = ground (arith, h, e)

over-after : (p : Class) (n : ℕ) (r : Regex) → over p r ≡ true → over p (after n r) ≡ true
unfolding over after
over-after p n never h = refl
over-after p n empty h = refl
over-after p n (one k) h = elim (Bool-cases (in_class k n)) [
  | inl e ↦ rw e refl
  | inr e ↦ rw e refl
]
over-after p n (seq r s) h =
    let a = over-after p n r (and_left _ _ h) in
    let b = over-after p n s (and_right (over p r) _ h) in
    let c = over-followed p (after n r) s a (and_right (over p r) _ h) in
    elim (Bool-cases (nullable r)) [
      | inl e ↦ rw e (over-either p (followed (after n r) s) (after n s) c b)
      | inr e ↦ rw e c
    ]
over-after p n (alt r s) h =
    over-either p (after n r) (after n s) (over-after p n r (and_left _ _ h))
      (over-after p n s (and_right (over p r) _ h))
over-after p n (upto zero r) h = refl
over-after p n (upto (suc m) r) h = over-followed p (after n r) (upto m r) (over-after p n r h) h
over-after p n (star r) h = over-followed p (after n r) (star r) (over-after p n r h) h

pub matches-never : (l : List Char) → matches l never ≡ false
unfolding matches nullable after
matches-never [] = refl
matches-never (c ∷ l) = matches-never l

-- The first character of a match.
pub matches-begins :
    (p : Class) (c : Char) (l : List Char) (r : Regex)
    → begins p r ≡ true
    → matches (c ∷ l) r ≡ true
    → in_class p (code c) ≡ true
unfolding matches
matches-begins p c l r h e = elim (Bool-cases (in_class p (code c))) [
  | inl i ↦ i
  | inr i ↦ absurd (
      not_both (matches l never) (subst (λ s. matches l s ≡ true) (dies p (code c) r i h) e)
        (matches-never l))
]

-- Every character of a match.
pub matches-over :
    (p : Class) (l : List Char) (r : Regex)
    → over p r ≡ true
    → matches l r ≡ true
    → All (λ c. in_class p (code c) ≡ true) l
matches-over p [] r h e = tt
matches-over p (c ∷ l) r h e = (
  matches-begins p c l r (over-begins p r h) e,
  matches-over p l (after (code c) r) (over-after p (code c) r h) (unfold matches in e),
)
