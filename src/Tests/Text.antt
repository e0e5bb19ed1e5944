-- ===== src/Tests/Text.antt =====
-- Runs of ipa_diagnose/textsafe.py.
use ipa_diagnose.Base.{◌≤◌, ◌≡◌, refl, code, ◌&&◌, ◌||◌, leb, eqb, length, All}
use ipa_diagnose.Base.Strings.{chars}
use ipa_diagnose.TextSafe.{sanitize_text, safe_token}
use ipa_diagnose.TextSafe.Scan.{Unicode}
use ipa_diagnose.TextSafe.Bounds.{length-sanitize_text-le, IsShown, sanitize_text-IsShown}

-- The tables for ASCII.
abbrev pub ascii : Unicode
ascii = record {
  is_printable = λ c. leb 32 (code c) && leb (code c) 126;
  is_space = λ c. eqb (code c) 32 || (leb 9 (code c) && leb (code c) 13);
}

escapes_removed : sanitize_text ascii "\u{1b}[31mred\u{1b}[0m  \nrow" 300 ≡ "red row"
unfolding sanitize_text chars
escapes_removed = refl

token_kept : safe_token ascii " ldap/ " "<host>" ≡ "<host>"
unfolding safe_token chars
token_kept = refl

length-sanitize_text-le_example : length (chars (sanitize_text ascii "one two three four" 10)) ≤ 10
length-sanitize_text-le_example = length-sanitize_text-le ascii "one two three four" 10

sanitize_text-IsShown_example : All (IsShown ascii) (chars (sanitize_text ascii "one\u{7}two" 5))
sanitize_text-IsShown_example = sanitize_text-IsShown ascii "one\u{7}two" 5 refl
