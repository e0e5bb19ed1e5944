-- ===== src/TextSafe.antt =====
-- ipa_diagnose/textsafe.py: sanitising of untrusted text.
pub mod Scan
pub mod Bounds
use ipa_diagnose.Base.{
  ℕ, zero, suc, ◌+◌, ◌-◌, Char, String, Bool, true, false, ◌&&◌, ◌||◌, not, Option, none, some,
  List, [], ◌∷◌, ◌++◌, map, leb, ltb, if◌then◌else◌, length, take, drop, all,
}
use ipa_diagnose.Base.Strings.{chars, text, chars-text}
use ipa_diagnose.TextSafe.Scan.{
  Unicode, blank, csi, osc, dcs, esc, sub, split, join, rfind, rstrip, strip, is_char, between,
}

abbrev pub default_limit : ℕ
default_limit = 300

abbrev pub pre_bound : ℕ
pre_bound = 4096

-- `re.sub` of the CSI, OSC, DCS and two-character sequences, in this order.
unfoldable pub strip_escapes : List Char → List Char
unfolding sub csi osc dcs esc
strip_escapes t = sub esc 0 (sub dcs 0 (sub osc 0 (sub csi 0 t)))

abbrev pub shown : Unicode → Char → Char
unfolding is_char
shown u c = if is_char 32 c || u.is_printable c then c else blank

-- The characters that the ellipsis replaces a tail of: `" ,;:-"`.
unfoldable pub is_trailing : Char → Bool
unfolding is_char
is_trailing c = is_char 32 c || is_char 44 c || is_char 59 c || is_char 58 c || is_char 45 c

abbrev pub ellipsis : List Char
ellipsis = "." ∷ "." ∷ "." ∷ []

-- `cut[:space]` where `space` is `cut.rfind(" ")`: for -1 the slice drops the last character.
-- `space >= room - 40` compares integers, so -1 passes as soon as `room` is below 40.
unfoldable pub word_cut : ℕ → List Char → Option ℕ → List Char
word_cut room cut none = if ltb room 40 then take (length cut - 1) cut else cut
word_cut room cut (some space) = if leb room (space + 40) then take space cut else cut

-- The text after the escapes and the control characters are gone and blanks are collapsed.
unfoldable pub cleaned : Unicode → List Char → List Char
unfolding strip_escapes split join
cleaned u t = join (split u (map (shown u) (strip_escapes (take pre_bound t))))

-- The cut to the limit.
unfoldable pub bounded : List Char → ℕ → List Char
unfolding word_cut rfind rstrip is_trailing
bounded t limit =
    if leb (length t) limit
    then t
    else if leb limit 3
    then take limit t
    else (let room = limit - 3 in
        let cut = take room t in rstrip is_trailing (word_cut room cut (rfind cut)) ++ ellipsis)

unfoldable pub sanitize_chars : Unicode → List Char → ℕ → List Char
unfolding cleaned bounded
sanitize_chars u t limit = bounded (cleaned u t) limit

unfoldable pub sanitize_text : Unicode → String → ℕ → String
unfolding sanitize_chars chars
sanitize_text u s limit = text (sanitize_chars u (chars s) limit)

-- `clean_multiline` keeps newlines (10) and tabs (9).
unfoldable pub clean_multiline : Unicode → String → ℕ → String
unfolding strip_escapes chars is_char
clean_multiline u s limit = text (
    map (λ c. if is_char 10 c || is_char 9 c || u.is_printable c then c else blank)
      (strip_escapes (take limit (chars s))))

-- `[A-Za-z0-9_]` and `[A-Za-z0-9_.,=-]`
unfoldable pub token_head : Char → Bool
unfolding between is_char
token_head c = between b'A' b'Z' c || between b'a' b'z' c || between b'0' b'9' c || is_char b'_' c

unfoldable pub token_char : Char → Bool
unfolding token_head is_char
token_char c = token_head c || is_char 46 c || is_char 44 c || is_char 61 c || is_char 45 c

-- `$` also matches before one last newline.
unfoldable pub chomp : List Char → List Char
unfolding is_char
chomp [] = []
chomp (c ∷ []) = if is_char 10 c then [] else c ∷ []
chomp (c ∷ d ∷ r) = c ∷ chomp (d ∷ r)

-- `_SAFE_TOKEN.match(text)`: a head, then at most 80 more characters, then the end.
unfoldable pub is_safe_token : List Char → Bool
unfolding token_head token_char chomp all
is_safe_token t = elim (chomp t) [
  | [] ↦ false
  | c ∷ r ↦ token_head c && all token_char r && leb (length r) 80
]

unfoldable pub safe_token : Unicode → String → String → String
unfolding is_safe_token strip chars
safe_token u value placeholder =
    let t = strip u.is_space (chars value) in if is_safe_token t then text t else placeholder
