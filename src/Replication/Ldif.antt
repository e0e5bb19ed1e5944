-- ===== src/Replication/Ldif.antt =====
-- ipa_diagnose/replication/ldif.py: the bounded reader of what `ldapsearch -LLL` prints. A text is the
-- list of its characters.
pub mod Bounds
use ipa_diagnose.Base.{
  ℕ, String, Char, code, Bool, true, false, ◌&&◌, ◌||◌, not, Option, none, some, List, [], ◌∷◌,
  ◌++◌, eqb, leb, ltb, if◌then◌else◌, any, length, take, drop, ◌==◌, string_eq,
}
use ipa_diagnose.Base.Dict.{Dict, get, put}
use ipa_diagnose.Base.Strings.{text, before}
use ipa_diagnose.TextSafe.Scan.{Unicode, strip}
use ipa_diagnose.Resolution.Text.{count, behind}

-- `str.isspace`, `str.lower`, and base64 decoding with UTF-8, which may fail.
pub record Runtime : Type 0 where
  pub unicode : Unicode
  pub lower : String → String
  pub decode : List Char → Option (List Char)

abbrev pub Line : Type 0
Line = List Char

pub record Entry : Type 0 where
  pub dn : Line
  pub attributes : Dict String (List Line)

abbrev pub max_entries : ℕ
max_entries = 500

abbrev pub max_values : ℕ
max_values = 64

abbrev pub max_value_len : ℕ
max_value_len = 4096

-- The line boundaries of `str.splitlines`.
abbrev pub is_break : ℕ → Bool
is_break c =
    (leb 10 c && leb c 13) || (leb 28 c && leb c 30) || eqb c 133 || eqb c 8232 || eqb c 8233

abbrev pub heads : ℕ → Line → Bool
heads n [] = false
heads n (c ∷ r) = eqb (code c) n

abbrev pub add_char : Char → List Line → List Line
add_char c [] = (c ∷ []) ∷ []
add_char c (l ∷ ls) = (c ∷ l) ∷ ls

-- `text.splitlines()`; a carriage return before a line feed is part of its boundary.
unfoldable pub split_lines : Line → List Line
split_lines [] = []
split_lines (c ∷ r) =
    let rest = split_lines r in
    if eqb (code c) 13 && heads 10 r
    then rest
    else if is_break (code c)
    then [] ∷ rest
    else add_char c rest

-- `lines[-1] += more`
abbrev pub extend_last : List Line → Line → List Line
extend_last [] more = more ∷ []
extend_last (l ∷ []) more = (l ++ more) ∷ []
extend_last (l ∷ m ∷ ls) more = l ∷ extend_last (m ∷ ls) more

abbrev pub is_nil {ℓ} : {A : Type ℓ} → List A → Bool
is_nil [] = true
is_nil (_ ∷ _) = false

-- `unfold`, on the lines read so far
unfoldable pub unfold_lines : List Line → List Line → List Line
unfold_lines [] lines = lines
unfold_lines (raw ∷ rest) lines = unfold_lines rest (
    if heads b' ' raw && not (is_nil lines)
    then extend_last lines (drop 1 raw)
    else lines ++ raw ∷ [])

-- The entries that are complete, and the one that is being read.
pub record Reading : Type 0 where
  pub entries : List Entry
  pub current : Option Entry

-- `if cur: entries.append(cur)`
abbrev pub appended : List Entry → Option Entry → List Entry
appended es none = es
appended es (some e) = es ++ e ∷ []

abbrev pub or_none_yet : Option (List Line) → List Line
or_none_yet none = []
or_none_yet (some vs) = vs

-- `if len(vals) < MAX_VALUES: vals.append(value)`
abbrev pub add_value : List Line → Line → List Line
add_value vs v = if ltb (length vs) max_values then vs ++ v ∷ [] else vs

-- A value for an attribute of the entry that is being read, if one is.
abbrev pub add_attribute : Option Entry → String → Line → Option Entry
add_attribute none key value = none
add_attribute (some e) key value = some (record e {
  attributes = put e.attributes key (add_value (or_none_yet (get e.attributes key)) value);
})

abbrev pub take_value : String → Line → Reading → Reading
take_value key value s =
    if key == "dn"
    then record {
      entries = appended s.entries s.current;
      current = some (record { dn = value; attributes = [] });
    }
    else record s { current = add_attribute s.current key value }

-- What follows the colon, decoded where there is a second one.
abbrev pub value_of : Runtime → Line → Option Line
value_of rt rest =
    if heads b':' rest
    then rt.decode (strip rt.unicode.is_space (drop 1 rest))
    else some (if heads b' ' rest then drop 1 rest else rest)

abbrev pub take_decoded : String → Option Line → Reading → Reading
take_decoded key none s = s
take_decoded key (some v) s = take_value key (take max_value_len v) s

-- `not sep or not attr or " " in attr`
abbrev pub is_skipped : Line → Bool
is_skipped line =
    eqb (count b':' line) 0
    || is_nil (before b':' line)
    || not (eqb (count b' ' (before b':' line)) 0)

abbrev pub attribute_of : Runtime → Line → String
attribute_of rt line = rt.lower (text (before b':' line))

-- A line that is neither blank nor a comment.
abbrev pub read_line : Runtime → Line → Reading → Reading
read_line rt line s =
    if is_skipped line
    then s
    else take_decoded (attribute_of rt line) (value_of rt (behind b':' line)) s

abbrev pub flushed : Reading → Reading
flushed s = record { entries = appended s.entries s.current; current = none }

-- One line, of which the first argument says whether it is blank.
abbrev pub next_reading : Runtime → Bool → Line → Reading → Reading
next_reading rt true line s = flushed s
next_reading rt false line s = if heads b'#' line then s else read_line rt line s

abbrev pub is_blank : Runtime → Line → Bool
is_blank rt line = is_nil (strip rt.unicode.is_space line)

-- The loop over the lines, which ends at a blank line once there are enough entries.
unfoldable pub read_lines : Runtime → List Line → Reading → Reading
unfolding strip before behind count put get
read_lines rt [] s = s
read_lines rt (line ∷ rest) s =
    let next = next_reading rt (is_blank rt line) line s in
    let more = read_lines rt rest next in
    if is_blank rt line && leb max_entries (length next.entries) then next else more

-- `parse`
unfoldable pub parse : Runtime → Line → List Entry
unfolding read_lines unfold_lines split_lines
parse rt t =
    let s =
      read_lines rt (unfold_lines (split_lines t) []) (record { entries = []; current = none }) in
    take max_entries
      (if ltb (length s.entries) max_entries then appended s.entries s.current else s.entries)

-- `first`, for an attribute other than `dn`
unfoldable pub first : Runtime → Entry → String → Line → Line
unfolding get
first rt e attr default = elim (or_none_yet (get e.attributes (rt.lower attr))) [
  | [] ↦ default
  | v ∷ vs ↦ v
]

-- `values`
unfoldable pub values : Runtime → Entry → String → List Line
unfolding get
values rt e attr = or_none_yet (get e.attributes (rt.lower attr))
