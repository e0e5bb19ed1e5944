-- ===== src/Resolution/Regex.antt =====
-- The regular expressions of ipa_diagnose/resolution/types.py as data, and `fullmatch` on them:
-- a pattern is stepped by each character, and matches if what is left matches the empty text.
pub mod Over
pub mod Parts
use ipa_diagnose.Base.{
  ◌≡◌, refl, ◌≢◌, arith, ℕ, zero, suc, ◌-◌, Char, code, Bool, true, false, ◌&&◌, ◌||◌, List, [],
  ◌∷◌, inl, inr, leb, eqb, if◌then◌else◌, any, all, All, length, Bool-cases,
}

-- A character class, as ranges of code points.
abbrev pub Class : Type 0
Class = List (ℕ × ℕ)

abbrev pub in_range : ℕ → ℕ × ℕ → Bool
in_range n r = leb r.0 n && leb n r.1

unfoldable pub in_class : Class → ℕ → Bool
unfolding any
in_class k n = any (in_range n) k

pub data Regex : Type 0 where
  never empty : Regex
  one : Class → Regex
  seq alt : Regex → Regex → Regex
  -- `r{0,n}`
  upto : ℕ → Regex → Regex
  star : Regex → Regex

unfoldable pub nullable : Regex → Bool
nullable never = false
nullable empty = true
nullable (one k) = false
nullable (seq r s) = nullable r && nullable s
nullable (alt r s) = nullable r || nullable s
nullable (upto n r) = true
nullable (star r) = true

-- `r` before `s`, in the shortest form.
abbrev pub followed : Regex → Regex → Regex
followed never s = never
followed empty s = s
followed (one k) s = seq (one k) s
followed (seq a b) s = seq (seq a b) s
followed (alt a b) s = seq (alt a b) s
followed (upto n a) s = seq (upto n a) s
followed (star a) s = seq (star a) s

-- `r` or `s`, in the shortest form.
abbrev pub either : Regex → Regex → Regex
either never s = s
either empty s = alt empty s
either (one k) s = alt (one k) s
either (seq a b) s = alt (seq a b) s
either (alt a b) s = alt (alt a b) s
either (upto n a) s = alt (upto n a) s
either (star a) s = alt (star a) s

-- What is left to match after the character `n`.
unfoldable pub after : ℕ → Regex → Regex
unfolding nullable in_class
after n never = never
after n empty = never
after n (one k) = if in_class k n then empty else never
after n (seq r s) =
    let left = followed (after n r) s in
    let right = after n s in if nullable r then either left right else left
after n (alt r s) = either (after n r) (after n s)
after n (upto zero r) = never
after n (upto (suc m) r) = followed (after n r) (upto m r)
after n (star r) = followed (after n r) (star r)

unfoldable pub matches : List Char → Regex → Bool
unfolding nullable after
matches [] r = nullable r
matches (c ∷ l) r = matches l (after (code c) r)

-- Every class of the pattern stands within the class `p`.
abbrev within : Class → ℕ × ℕ → Bool
within p r = any (λ q. leb q.0 r.0 && leb r.1 q.1) p

unfoldable pub covers : Class → Class → Bool
unfolding any all
covers p k = all (within p) k

unfoldable pub over : Class → Regex → Bool
unfolding covers
over p never = true
over p empty = true
over p (one k) = covers p k
over p (seq r s) = over p r && over p s
over p (alt r s) = over p r && over p s
over p (upto n r) = over p r
over p (star r) = over p r

-- Every match of the pattern that is not empty begins with a character of `p`.
unfoldable pub begins : Class → Regex → Bool
unfolding covers nullable
begins p never = true
begins p empty = true
begins p (one k) = covers p k
begins p (seq r s) = begins p r && (if nullable r then begins p s else true)
begins p (alt r s) = begins p r && begins p s
begins p (upto n r) = begins p r
begins p (star r) = begins p r
