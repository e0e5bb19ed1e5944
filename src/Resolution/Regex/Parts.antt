-- ===== src/Resolution/Regex/Parts.antt =====
-- The parts of a text that a pattern matches.
use ipa_diagnose.Base.{
  ◌≡◌, refl, ap, arith, ℕ, zero, suc, ◌≤◌, ◌||◌, Char, code, Bool, true, false, List, [], ◌∷◌, ◌++◌,
  map, length, inl, inr, ◌⊎◌, All, Bool-cases, and_left, and_right,
}
use ipa_diagnose.Resolution.Regex.{
  Class, Regex, never, empty, one, seq, alt, upto, star, in_class, nullable, followed, either,
  after, matches,
}
use ipa_diagnose.Resolution.Regex.Over.{matches-never}
use ipa_diagnose.Resolution.Patterns.{word, single}

refute : (b : Bool) → b ≡ false → b ≡ true → ⊥
refute b p q = ground (arith, p, q)

or_cases : (a b : Bool) → (a || b) ≡ true → (a ≡ true) ⊎ (b ≡ true)
or_cases true b h = inl refl
or_cases false b h = inr h

abbrev Either : List Char → Regex → Regex → Type 0
Either l r s = (matches l r ≡ true) ⊎ (matches l s ≡ true)

-- The shortest form of an alternative matches nothing else than the alternative.
matches-either :
    (l : List Char) (r s : Regex)
    → (matches l (alt r s) ≡ true → Either l r s)
    → matches l (either r s) ≡ true
    → Either l r s
matches-either l never s k h = inr h
matches-either l empty s k h = k h
matches-either l (one _) s k h = k h
matches-either l (seq _ _) s k h = k h
matches-either l (alt _ _) s k h = k h
matches-either l (upto _ _) s k h = k h
matches-either l (star _) s k h = k h

matches-alt : (l : List Char) (r s : Regex) → matches l (alt r s) ≡ true → Either l r s
unfolding matches nullable after
matches-alt [] r s h = or_cases (nullable r) (nullable s) h
matches-alt (c ∷ l) r s h =
    matches-either l (after (code c) r) (after (code c) s) (matches-alt l _ _) h

matches-empty_seq :
    (l : List Char) (s : Regex) → matches l s ≡ true → matches l (seq empty s) ≡ true
unfolding matches nullable after
matches-empty_seq [] s h = h
matches-empty_seq (c ∷ l) s h = h

-- What the shortest form of a sequence matches, the sequence matches.
matches-followed :
    (l : List Char) (r s : Regex) → matches l (followed r s) ≡ true → matches l (seq r s) ≡ true
matches-followed l never s h = absurd (refute _ (matches-never l) h)
matches-followed l empty s h = matches-empty_seq l s h
matches-followed l (one _) s h = h
matches-followed l (seq _ _) s h = h
matches-followed l (alt _ _) s h = h
matches-followed l (upto _ _) s h = h
matches-followed l (star _) s h = h

-- A part for each of two patterns.
abbrev pub Splits : List Char → Regex → Regex → Type 0
Splits l r s =
    (a : List Char) × (b : List Char) × (l ≡ a ++ b) × (matches a r ≡ true) × (matches b s ≡ true)

longer :
    (c : Char) (l : List Char) (r s : Regex) → Splits l (after (code c) r) s → Splits (c ∷ l) r s
unfolding matches
longer c l r s p = (c ∷ p.0, p.1, ap (λ t. c ∷ t) p.2, p.3, p.4)

-- A text that a sequence matches falls into a part for each of its patterns.
pub matches-seq : (l : List Char) (r s : Regex) → matches l (seq r s) ≡ true → Splits l r s
unfolding matches nullable after
matches-seq [] r s h =
    ([], [], refl, and_left (nullable r) (nullable s) h, and_right (nullable r) _ h)
matches-seq (c ∷ l) r s h =
    let left = followed (after (code c) r) s in
    let split : matches l left ≡ true → Splits (c ∷ l) r s = λ k.
      longer c l r s
        (matches-seq l (after (code c) r) s (matches-followed l (after (code c) r) s k)) in
    elim (Bool-cases (nullable r)) [
      | inl e ↦
          (let k : matches l (either left (after (code c) s)) ≡ true = rw e at h in
            elim (matches-either l left (after (code c) s) (matches-alt l _ _) k) [
              | inl m ↦ split m
              | inr m ↦ ([], c ∷ l, refl, e, m)
            ])
      | inr e ↦ split (rw e at h)
    ]

matches-nothing : (l : List Char) → matches l empty ≡ true → l ≡ []
unfolding matches after
matches-nothing [] h = refl
matches-nothing (c ∷ l) h = absurd (refute _ (matches-never l) h)

pub matches-one :
    (k : Class) (l : List Char)
    → matches l (one k) ≡ true
    → (c : Char) × (l ≡ c ∷ []) × (in_class k (code c) ≡ true)
unfolding matches nullable after
matches-one k [] h = absurd (ground (arith, h))
matches-one k (c ∷ l) h = elim (Bool-cases (in_class k (code c))) [
  | inl e ↦
      (let q : matches l empty ≡ true = rw e at h in (c, ap (λ t. c ∷ t) (matches-nothing l q), e))
  | inr e ↦ (let q : matches l never ≡ true = rw e at h in absurd (refute _ (matches-never l) q))
]

-- At most `n` characters of a class.
pub matches-upto_one :
    (n : ℕ) (k : Class) (l : List Char)
    → matches l (upto n (one k)) ≡ true
    → (length l ≤ n) × All (λ c. in_class k (code c) ≡ true) l
unfolding matches after
matches-upto_one n k [] h = (omega arith, tt)
matches-upto_one zero k (c ∷ l) h = absurd (refute _ (matches-never l) h)
matches-upto_one (suc n) k (c ∷ l) h = elim (Bool-cases (in_class k (code c))) [
  | inl e ↦
      (let q : matches l (upto n (one k)) ≡ true = rw e at h in
        let p = matches-upto_one n k l q in (omega (arith, p.0), (e, p.1)))
  | inr e ↦ (let q : matches l never ≡ true = rw e at h in absurd (refute _ (matches-never l) q))
]

single-code : (c d : ℕ) → in_class (single d ∷ []) c ≡ true → c ≡ d
unfolding in_class
single-code c d h = ground (arith, h)

-- A literal text is matched by the text with its characters.
pub matches-word : (w l : List Char) → matches l (word w) ≡ true → map code l ≡ map code w
matches-word [] l h = ap (map code) (matches-nothing l h)
matches-word (c ∷ w) l h =
    let p = matches-seq l (one (single (code c) ∷ [])) (word w) h in
    let o = matches-one (single (code c) ∷ []) p.0 p.3 in
    let n = single-code (code o.0) (code c) o.2 in
    let tail = matches-word w p.1 p.4 in rw (p.2, o.1, n, tail) refl
