-- ===== src/Resolution/Types/Safe/Plain.antt =====
-- Texts that are safe in a command line, and when a pattern has only such matches.
use ipa_diagnose.Base.{
  and_left, and_right, ◌≡◌, sym, subst, arith, ℕ, Char, code, String, Bool, true, false, ◌&&◌, not,
  Option, none, some, List, [], ◌∷◌, ◌++◌, inl, inr, any, all, contains, ◌==◌, ==_iff, string_eq,
  Bool-cases,
}
use ipa_diagnose.Base.Strings.{chars}
use ipa_diagnose.Base.Value.{Value, null, boolean, number, str, array, dict, other}
use ipa_diagnose.Resolution.Regex.{Class, Regex, in_class, matches, nullable, over, begins, covers}
use ipa_diagnose.Resolution.Regex.Over.{matches-begins, matches-over}
use ipa_diagnose.Resolution.Text.{Each}
use ipa_diagnose.Resolution.Patterns.{letter_or_digit, single}
use ipa_diagnose.Resolution.Types.{Answer, accepted, fullmatch, when, answered}

-- Letters, digits, the space, and `$ + , - . / : = @ _`: nothing that a shell reads, but for a `$`
-- and the space.
unfoldable pub plain : Class
plain =
    letter_or_digit
    ++ single b' '
      ∷ single b'$'
      ∷ single b'+'
      ∷ single b','
      ∷ single b'-'
      ∷ single b'.'
      ∷ single b'/'
      ∷ single b':'
      ∷ single b'='
      ∷ single b'@'
      ∷ single b'_'
      ∷ []

-- Letters, digits, and `_ . /`.
unfoldable pub lead : Class
lead = letter_or_digit ++ single b'_' ∷ single b'.' ∷ single b'/' ∷ []

abbrev pub Leads : List Char → Type 0
Leads [] = ⊥
Leads (c ∷ l) = in_class lead (code c) ≡ true

-- A text of plain characters that is not empty and begins with none of ` $+,-:=@`.
abbrev pub IsSafe : String → Type 0
IsSafe s = Leads (chars s) × Each (in_class plain) (chars s)

abbrev pub OnSome : (String → Type 0) → Option String → Type 0
OnSome P none = Unit
OnSome P (some s) = P s

abbrev pub OnAccepted : (String → Type 0) → Answer → Type 0
OnAccepted P (accepted s) = P s
OnAccepted P _ = Unit

pub regex-Leads :
    (r : Regex) (l : List Char)
    → nullable r ≡ false
    → begins lead r ≡ true
    → matches l r ≡ true
    → Leads l
unfolding matches
regex-Leads r [] n b h = absurd (ground (arith, n, h))
regex-Leads r (c ∷ l) n b h = matches-begins lead c l r b h

-- Every text that the pattern matches is safe, as its classes show.
unfoldable pub tidy : Regex → Bool
unfolding nullable begins over covers any all plain lead in_class
tidy r = not (nullable r) && (begins lead r && over plain r)

pub regex-IsSafe : (r : Regex) → tidy r ≡ true → (s : String) → fullmatch r s ≡ true → IsSafe s
unfolding fullmatch tidy
regex-IsSafe r t s h =
    let n : nullable r ≡ false = ground (arith, t) in
    let b : begins lead r ≡ true = ground (arith, t) in
    let o : over plain r ≡ true = ground (arith, t) in
    (regex-Leads r (chars s) n b h, matches-over plain (chars s) r o h)

pub when-OnSome :
    (P : String → Type 0) (test : String → Bool) (v : Value)
    → ((s : String) → test s ≡ true → P s)
    → OnSome P (when test v)
when-OnSome P test (str s) f = elim (Bool-cases (test s)) [ inl e ↦ rw e (f s e) | inr e ↦ rw e tt ]
when-OnSome P test null f = tt
when-OnSome P test (boolean b) f = tt
when-OnSome P test (number n) f = tt
when-OnSome P test (array xs) f = tt
when-OnSome P test (dict fs) f = tt
when-OnSome P test (other s) f = tt

pub OnSome-answered :
    (P : String → Type 0) (o : Option String) → OnSome P o → OnAccepted P (answered o)
OnSome-answered P none h = tt
OnSome-answered P (some s) h = h

-- A validator that tests a pattern of safe classes, and more.
pub when_regex-OnSome :
    (r : Regex) (test : String → Bool) (v : Value)
    → tidy r ≡ true
    → ((s : String) → test s ≡ true → fullmatch r s ≡ true)
    → OnSome IsSafe (when test v)
when_regex-OnSome r test v t f = when-OnSome IsSafe test v (λ s h. regex-IsSafe r t s (f s h))

-- A text that is safe, as its characters show.
unfoldable pub safe_chars : List Char → Bool
unfolding all
safe_chars [] = false
safe_chars (c ∷ l) = in_class lead (code c) && all (λ d. in_class plain (code d)) (c ∷ l)

pub all-Each : (f : ℕ → Bool) (l : List Char) → all (λ d. f (code d)) l ≡ true → Each f l
unfolding all
all-Each f [] h = tt
all-Each f (c ∷ l) h = (and_left _ _ h, all-Each f l (and_right (f (code c)) _ h))

pub safe_chars_lem : (l : List Char) → safe_chars l ≡ true → Leads l × Each (in_class plain) l
unfolding safe_chars
safe_chars_lem [] h = absurd (ground (arith, h))
safe_chars_lem (c ∷ l) h =
    (and_left _ _ h, all-Each (in_class plain) (c ∷ l) (and_right (in_class lead (code c)) _ h))

unfoldable pub safe : String → Bool
unfolding safe_chars chars
safe s = safe_chars (chars s)

pub contains-all :
    (p : String → Bool) (l : List String) (s : String)
    → all p l ≡ true
    → contains l s ≡ true
    → p s ≡ true
unfolding contains all
contains-all p [] s a h = absurd (ground (arith, h))
contains-all p (x ∷ l) s a h = elim (Bool-cases (s == x)) [
  | inl e ↦ subst (λ y. p y ≡ true) (sym ((==_iff s x).0 e)) (and_left _ _ a)
  | inr e ↦ contains-all p l s (and_right (p x) _ a) (rw e at h)
]

pub listed-OnSome :
    (l : List String) (v : Value) → all safe l ≡ true → OnSome IsSafe (when (contains l) v)
unfolding safe
listed-OnSome l v h =
    when-OnSome IsSafe (contains l) v (λ s e. safe_chars_lem (chars s) (contains-all safe l s h e))
