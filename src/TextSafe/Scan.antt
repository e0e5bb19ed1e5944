-- ===== src/TextSafe/Scan.antt =====
-- The scanners behind ipa_diagnose/textsafe.py: the four regular expressions that it substitutes
-- away, and the string methods that it calls, over the characters of a text.
use ipa_diagnose.Base.{
  ℕ, zero, suc, ◌+◌, ◌-◌, Char, code, Bool, ◌&&◌, ◌||◌, not, Option, none, some, List, [], ◌∷◌,
  ◌++◌, leb, eqb, if◌then◌else◌,
}

-- What the program takes from the Unicode tables of the Python runtime: `str.isprintable` and
-- `str.isspace` of one character.
pub record Unicode : Type 0 where
  pub is_printable : Char → Bool
  pub is_space : Char → Bool

abbrev pub blank : Char
blank = " "

unfoldable pub is_char : ℕ → Char → Bool
is_char n c = eqb (code c) n

unfoldable pub between : ℕ → ℕ → Char → Bool
between lo hi c = leb lo (code c) && leb (code c) hi

-- How many characters at the front satisfy the test: a greedy `[...]*`.
unfoldable pub span : (Char → Bool) → List Char → ℕ
span p [] = 0
span p (c ∷ r) = let n = span p r in if p c then suc n else 0

-- The characters behind that front.
unfoldable pub behind : (Char → Bool) → List Char → List Char
behind p [] = []
behind p (c ∷ r) = let rest = behind p r in if p c then rest else c ∷ r

-- `[@-~]` after the parameter and intermediate bytes; the three classes are disjoint, so the
-- greedy match is the only one.
unfoldable pub csi_final : ℕ → List Char → Option ℕ
unfolding between
csi_final n [] = none
csi_final n (c ∷ r) = if between 64 126 c then some (n + 1) else none

-- Each scanner answers how many characters the expression matches at the front of the text.
-- `\x1b\[[0-?]*[ -/]*[@-~]`
unfoldable pub csi : List Char → Option ℕ
unfolding is_char between span behind csi_final
csi (e ∷ b ∷ r) =
    if is_char 27 e && is_char b'[' b
    then (let params = behind (between 48 63) r in
        csi_final (2 + span (between 48 63) r + span (between 32 47) params)
          (behind (between 32 47) params))
    else none
csi _ = none

-- `(\x07|\x1b\\)?`
unfoldable pub osc_end : List Char → ℕ
unfolding is_char
osc_end [] = 0
osc_end (a ∷ []) = if is_char 7 a then 1 else 0
osc_end (a ∷ b ∷ r) = if is_char 7 a then 1 else if is_char 27 a && is_char 92 b then 2 else 0

-- `\x1b\][^\x07\x1b]*(\x07|\x1b\\)?`
unfoldable pub osc : List Char → Option ℕ
unfolding is_char span behind osc_end
osc (e ∷ b ∷ r) =
    let inside = λ (c : Char). not (is_char 7 c || is_char 27 c) in
    if is_char 27 e && is_char 93 b
    then some (2 + span inside r + osc_end (behind inside r))
    else none
osc _ = none

-- `(\x1b\\)?`
unfoldable pub dcs_end : List Char → ℕ
unfolding is_char
dcs_end (a ∷ b ∷ r) = if is_char 27 a && is_char 92 b then 2 else 0
dcs_end _ = 0

-- `\x1b[P^_X][^\x1b]*(\x1b\\)?`
unfoldable pub dcs : List Char → Option ℕ
unfolding is_char span behind dcs_end
dcs (e ∷ b ∷ r) =
    let inside = λ (c : Char). not (is_char 27 c) in
    if is_char 27 e && (is_char b'P' b || is_char 94 b || is_char b'_' b || is_char b'X' b)
    then some (2 + span inside r + dcs_end (behind inside r))
    else none
dcs _ = none

-- `\x1b[@-Z\\-_]`
unfoldable pub esc : List Char → Option ℕ
unfolding is_char between
esc (e ∷ b ∷ r) = if is_char 27 e && (between 64 90 b || between 92 95 b) then some 2 else none
esc _ = none

-- `re.sub(expression, "", text)`: the first number counts the matched characters still to drop.
unfoldable pub sub : (List Char → Option ℕ) → ℕ → List Char → List Char
sub m skip [] = []
sub m (suc k) (c ∷ r) = sub m k r
sub m zero (c ∷ r) = elim (m (c ∷ r)) [ none ↦ c ∷ sub m zero r | some n ↦ sub m (n - 1) r ]

-- `text.split()`, with the word that is being read.
unfoldable pub split_from : Unicode → List Char → List Char → List (List Char)
split_from u [] [] = []
split_from u (w ∷ ws) [] = (w ∷ ws) ∷ []
split_from u [] (c ∷ r) = split_from u (if u.is_space c then [] else c ∷ []) r
split_from u (w ∷ ws) (c ∷ r) =
    let next = (w ∷ ws) ∷ split_from u [] r in
    let more = split_from u ((w ∷ ws) ++ c ∷ []) r in if u.is_space c then next else more

unfoldable pub split : Unicode → List Char → List (List Char)
unfolding split_from
split u t = split_from u [] t

-- `" ".join(words)`
unfoldable pub join : List (List Char) → List Char
join [] = []
join (w ∷ []) = w
join (w ∷ v ∷ ws) = w ++ (blank ∷ join (v ∷ ws))

-- `text.rfind(" ")`, with `none` for -1
unfoldable pub rfind : List Char → Option ℕ
unfolding is_char
rfind [] = none
rfind (c ∷ r) = elim (rfind r) [
  | some i ↦ some (i + 1)
  | none ↦ if is_char 32 c then some 0 else none
]

-- `text.rstrip(chars)` and `text.strip()`, for the characters that a test picks
unfoldable pub rstrip : (Char → Bool) → List Char → List Char
rstrip p [] = []
rstrip p (c ∷ r) = elim (rstrip p r) [ [] ↦ (if p c then [] else c ∷ []) | d ∷ s ↦ c ∷ d ∷ s ]

unfoldable pub strip : (Char → Bool) → List Char → List Char
unfolding rstrip behind
strip p t = rstrip p (behind p t)
