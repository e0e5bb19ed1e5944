-- ===== src/Resolution/Text.antt =====
-- The string operations that ipa_diagnose/resolution/types.py uses, on lists of characters.
use ipa_diagnose.Base.{
  ◌≡◌, arith, ℕ, zero, suc, ◌/◌, ◌%◌, Char, code, String, Bool, true, false, ◌&&◌, ◌||◌, List, [],
  ◌∷◌, ◌++◌, eqb, ltb, if◌then◌else◌, All, length, drop, take, Bool-cases, inl, inr,
}
use ipa_diagnose.Base.Strings.{chars, text, before}
use ipa_diagnose.Base.Value.{ℤ, pos, negsuc}

-- `l.startswith(p)`
unfoldable pub begins_with : List Char → List Char → Bool
begins_with [] l = true
begins_with (a ∷ p) [] = false
begins_with (a ∷ p) (b ∷ l) = eqb (code a) (code b) && begins_with p l

abbrev is_nil : List Char → Bool
is_nil [] = true
is_nil (_ ∷ _) = false

-- `l.endswith(p)`
unfoldable pub ends_with : List Char → List Char → Bool
unfolding begins_with
ends_with p [] = is_nil p
ends_with p (c ∷ l) = (begins_with p (c ∷ l) && eqb (length p) (suc (length l))) || ends_with p l

-- `p in l`
unfoldable pub has_part : List Char → List Char → Bool
unfolding begins_with
has_part p [] = is_nil p
has_part p (c ∷ l) = begins_with p (c ∷ l) || has_part p l

-- `l.count(c)`
unfoldable pub count : ℕ → List Char → ℕ
count n [] = 0
count n (c ∷ l) = let rest = count n l in if eqb (code c) n then suc rest else rest

-- `l.partition(c)[2]`, for a separator of one character
unfoldable pub behind : ℕ → List Char → List Char
behind n [] = []
behind n (c ∷ l) = let rest = behind n l in if eqb (code c) n then l else rest

-- `str(n)`
unfoldable pub decimals : ℕ → ℕ → List Char
unfolding chars
decimals zero n = []
decimals (suc fuel) n =
    let rest = decimals fuel (n / 10) in
    let last = take 1 (drop (n % 10) (chars "0123456789")) in
    if ltb n 10 then last else rest ++ last

unfoldable pub show : ℤ → String
unfolding decimals chars
show (pos n) = text (decimals (suc n) n)
show (negsuc n) = text (chars "-" ++ decimals (suc (suc n)) (suc n))

-- Every character is one of those that `f` allows.
abbrev pub Each : (ℕ → Bool) → List Char → Type 0
Each f = All (λ c. f (code c) ≡ true)

-- What holds of the characters of both parts and of the separator holds of all characters.
pub Each-partition :
    (f : ℕ → Bool) (n : ℕ) (l : List Char)
    → f n ≡ true
    → Each f (before n l)
    → Each f (behind n l)
    → Each f l
unfolding before behind
Each-partition f n [] p h k = tt
Each-partition f n (c ∷ l) p h k = elim (Bool-cases (eqb (code c) n)) [
  | inl e ↦ (ground (arith, e, p), rw e at k)
  | inr e ↦
      let h' : Each f (c ∷ before n l) = rw e at h in
      (h'.0, Each-partition f n l p h'.1 (rw e at k))
]

-- A text that begins with `p` is `p` and what follows it.
pub Each-begins :
    (f : ℕ → Bool) (p l : List Char)
    → begins_with p l ≡ true
    → Each f p
    → Each f (drop (length p) l)
    → Each f l
unfolding begins_with
Each-begins f [] l h a k = k
Each-begins f (x ∷ p) [] h a k = absurd (ground (arith, h))
Each-begins f (x ∷ p) (c ∷ l) h a k = elim (Bool-cases (eqb (code x) (code c))) [
  | inl e ↦
      let t : begins_with p l ≡ true = ground (arith, h, e) in
      (ground (arith, e, a.0), Each-begins f p l t a.1 k)
  | inr e ↦ absurd (ground (arith, h, e))
]
