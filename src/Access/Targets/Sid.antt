-- ===== src/Access/Targets/Sid.antt =====
-- The security identifiers that ipa_diagnose/access/targets.py takes (`_SID_RE`), described without a
-- pattern.
use ipa_diagnose.Base.{
  ◌≡◌, refl, ◌⊎◌, arith, ℕ, ◌≤◌, Char, code, true, List, [], ◌∷◌, ◌++◌, map, length, All, any,
}
use ipa_diagnose.Base.Strings.{chars}
use ipa_diagnose.Resolution.Regex.{Class, one, seq, upto, in_class, matches}
use ipa_diagnose.Resolution.Regex.Parts.{matches-seq, matches-one, matches-upto_one, matches-word}
use ipa_diagnose.Resolution.Patterns.{single, repeated, word}
use ipa_diagnose.Access.Targets.{dash_number, sid_re}

-- A dash and one to ten digits.
abbrev pub IsGroup : Class → List Char → Type 0
IsGroup digits l =
    (dash : Char) × (first : Char) × (rest : List Char) × (l ≡ dash ∷ first ∷ rest)
    × (code dash ≡ b'-')
    × (length rest ≤ 9)
    × All (λ c. in_class digits (code c) ≡ true) (first ∷ rest)

-- `S`, `s` or the long s, then `-1-5-21` and four groups.
abbrev pub IsSid : Class → List Char → Type 0
IsSid digits l =
    (s : Char) × (w : List Char) × (g1 : List Char) × (g2 : List Char) × (g3 : List Char)
    × (g4 : List Char) × (l ≡ s ∷ (w ++ (g1 ++ (g2 ++ (g3 ++ g4)))))
    × ((code s ≡ b'S') ⊎ ((code s ≡ b's') ⊎ (code s ≡ 383)))
    × (map code w ≡ map code (chars "-1-5-21"))
    × IsGroup digits g1
    × IsGroup digits g2
    × IsGroup digits g3
    × IsGroup digits g4

dash_code : (n : ℕ) → in_class (single b'-' ∷ []) n ≡ true → n ≡ b'-'
unfolding in_class any
dash_code n h = ground (arith, h)

letter_code :
    (n : ℕ)
    → in_class (single b'S' ∷ single b's' ∷ single 383 ∷ []) n ≡ true
    → (n ≡ b'S') ⊎ ((n ≡ b's') ⊎ (n ≡ 383))
unfolding in_class any
letter_code n h = ground (arith, h)

-- The parts in a row.
join :
    (l a b0 w b1 g1 b2 g2 b3 g3 g4 : List Char) (s : Char)
    → l ≡ a ++ b0
    → a ≡ s ∷ []
    → b0 ≡ w ++ b1
    → b1 ≡ g1 ++ b2
    → b2 ≡ g2 ++ b3
    → b3 ≡ g3 ++ g4
    → l ≡ s ∷ (w ++ (g1 ++ (g2 ++ (g3 ++ g4))))
join l a b0 w b1 g1 b2 g2 b3 g3 g4 s e0 e1 e2 e3 e4 e5 = rw (e0, e1, e2, e3, e4, e5) refl

join_group :
    (l a b c d : List Char) (x y : Char)
    → l ≡ a ++ b
    → a ≡ x ∷ []
    → b ≡ c ++ d
    → c ≡ y ∷ []
    → l ≡ x ∷ y ∷ d
join_group l a b c d x y e0 e1 e2 e3 = rw (e0, e1, e2, e3) refl

group_lem :
    (digits : Class) (l : List Char) → matches l (dash_number digits) ≡ true → IsGroup digits l
group_lem digits l h =
    let p = matches-seq l (one (single b'-' ∷ [])) (repeated 10 digits) h in
    let d = matches-one (single b'-' ∷ []) p.0 p.3 in
    let q = matches-seq p.1 (one digits) (upto 9 (one digits)) p.4 in
    let f = matches-one digits q.0 q.3 in
    let r = matches-upto_one 9 digits q.1 q.4 in
    (
      d.0,
      f.0,
      q.1,
      join_group l p.0 p.1 q.0 q.1 d.0 f.0 p.2 d.1 q.2 f.1,
      dash_code (code d.0) d.2,
      r.0,
      (f.2, r.1),
    )

-- What the pattern matches is an identifier.
pub sid_re-IsSid :
    (digits : Class) (l : List Char) → matches l (sid_re digits) ≡ true → IsSid digits l
unfolding sid_re
sid_re-IsSid digits l h =
    let g = dash_number digits in
    let p0 =
      matches-seq l (one (single b'S' ∷ single b's' ∷ single 383 ∷ []))
        (seq (word (chars "-1-5-21")) (seq g (seq g (seq g g)))) h in
    let s = matches-one (single b'S' ∷ single b's' ∷ single 383 ∷ []) p0.0 p0.3 in
    let p1 = matches-seq p0.1 (word (chars "-1-5-21")) (seq g (seq g (seq g g))) p0.4 in
    let p2 = matches-seq p1.1 g (seq g (seq g g)) p1.4 in
    let p3 = matches-seq p2.1 g (seq g g) p2.4 in
    let p4 = matches-seq p3.1 g g p3.4 in
    (
      s.0,
      p1.0,
      p2.0,
      p3.0,
      p4.0,
      p4.1,
      join l p0.0 p0.1 p1.0 p1.1 p2.0 p2.1 p3.0 p3.1 p4.0 p4.1 s.0 p0.2 s.1 p1.2 p2.2 p3.2 p4.2,
      letter_code (code s.0) s.2,
      matches-word (chars "-1-5-21") p1.0 p1.3,
      group_lem digits p2.0 p2.3,
      group_lem digits p3.0 p3.3,
      group_lem digits p4.0 p4.3,
      group_lem digits p4.1 p4.4,
    )
