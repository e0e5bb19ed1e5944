-- ===== src/Replication/Ldif/Bounds.antt =====
-- The bounds of what the LDIF reader of ipa_diagnose/replication/ldif.py returns.
use ipa_diagnose.Base.{
  inl, inr, arith, ◌≤◌, String, Bool, true, false, Option, Option-cases, none, some, List, [], ◌∷◌,
  ltb, leb, ◌&&◌, if◌then◌else◌, length, take, length-take, length-append, All, All-append,
  All-take, Bool-cases, string_eq, ◌==◌,
}
use ipa_diagnose.Base.Dict.{get, All-get, All-put}
use ipa_diagnose.Resolution.Text.{behind}
use ipa_diagnose.Replication.Ldif.{
  Runtime, Line, Entry, max_entries, max_values, max_value_len, Reading, appended, or_none_yet,
  add_value, add_attribute, take_value, take_decoded, read_line, is_skipped, attribute_of, is_blank,
  next_reading, read_lines, parse, value_of, heads, unfold_lines, split_lines,
}

abbrev pub IsShort : Line → Type 0
IsShort l = length l ≤ max_value_len

-- At most 64 values, each of at most 4096 characters.
abbrev pub IsValues : List Line → Type 0
IsValues vs = (length vs ≤ max_values) × All IsShort vs

abbrev pub IsBounded : Entry → Type 0
IsBounded e = IsShort e.dn × All (λ a. IsValues a.1) e.attributes

abbrev IsFine : Option Entry → Type 0
IsFine none = Unit
IsFine (some e) = IsBounded e

abbrev Fine : Reading → Type 0
Fine s = All IsBounded s.entries × IsFine s.current

appended-IsBounded :
    (es : List Entry) (o : Option Entry)
    → All IsBounded es
    → IsFine o
    → All IsBounded (appended es o)
appended-IsBounded es none h k = h
appended-IsBounded es (some e) h k = All-append IsBounded es (e ∷ []) h (k, tt)

add_value-IsValues :
    (vs : List Line) (v : Line) → IsValues vs → IsShort v → IsValues (add_value vs v)
add_value-IsValues vs v h k = elim (Bool-cases (ltb (length vs) max_values)) [
  | inl e ↦
      rw e
        (ground (arith, e, length-append vs (v ∷ [])), All-append IsShort vs (v ∷ []) h.1 (k, tt))
  | inr e ↦ rw e h
]

found-IsValues :
    (e : Entry) (key : String) → IsBounded e → IsValues (or_none_yet (get e.attributes key))
found-IsValues e key h = elim (Option-cases (get e.attributes key)) [
  | inl p ↦ rw p (omega arith, tt)
  | inr (vs, p) ↦ rw p (All-get (λ k x. IsValues x) e.attributes key vs h.1 p)
]

add_attribute-IsFine :
    (o : Option Entry) (key : String) (v : Line)
    → IsFine o
    → IsShort v
    → IsFine (add_attribute o key v)
add_attribute-IsFine none key v h k = tt
add_attribute-IsFine (some e) key v h k = (
  h.0,
  All-put (λ a x. IsValues x) e.attributes key _ h.1
      (add_value-IsValues (or_none_yet (get e.attributes key)) v (found-IsValues e key h) k),
)

take_value-Fine :
    (key : String) (v : Line) (s : Reading) → Fine s → IsShort v → Fine (take_value key v s)
take_value-Fine key v s h k = elim (Bool-cases (key == "dn")) [
  | inl e ↦ rw e (appended-IsBounded s.entries s.current h.0 h.1, (k, tt))
  | inr e ↦ rw e (h.0, add_attribute-IsFine s.current key v h.1 k)
]

take_decoded-Fine :
    (key : String) (o : Option Line) (s : Reading) → Fine s → Fine (take_decoded key o s)
take_decoded-Fine key none s h = h
take_decoded-Fine key (some v) s h =
    take_value-Fine key (take max_value_len v) s h (omega (arith, length-take max_value_len v))

if-Fine : (b : Bool) (s t : Reading) → Fine s → Fine t → Fine (if b then s else t)
if-Fine true s t h k = h
if-Fine false s t h k = k

read_line-Fine : (rt : Runtime) (line : Line) (s : Reading) → Fine s → Fine (read_line rt line s)
read_line-Fine rt line s h =
    let value = value_of rt (behind b':' line) in
    if-Fine (is_skipped line) s (take_decoded (attribute_of rt line) value s) h
      (take_decoded-Fine (attribute_of rt line) value s h)

next_reading-Fine :
    (rt : Runtime) (b : Bool) (line : Line) (s : Reading) → Fine s → Fine (next_reading rt b line s)
next_reading-Fine rt true line s h = (appended-IsBounded s.entries s.current h.0 h.1, tt)
next_reading-Fine rt false line s h =
    if-Fine (heads b'#' line) s (read_line rt line s) h (read_line-Fine rt line s h)

read_lines-Fine : (rt : Runtime) (l : List Line) (s : Reading) → Fine s → Fine (read_lines rt l s)
unfolding read_lines
read_lines-Fine rt [] s h = h
read_lines-Fine rt (line ∷ rest) s h =
    let next = next_reading rt (is_blank rt line) line s in
    let k = next_reading-Fine rt (is_blank rt line) line s h in
    if-Fine (is_blank rt line && leb max_entries (length next.entries)) next
      (read_lines rt rest next) k (read_lines-Fine rt rest next k)

if-All :
    (b : Bool) (l r : List Entry)
    → All IsBounded l
    → All IsBounded r
    → All IsBounded (if b then l else r)
if-All true l r h k = h
if-All false l r h k = k

-- Whatever the text is, `parse` returns at most 500 entries, and each has at most 64 values for an
-- attribute; a value or a distinguished name has at most 4096 characters.
pub parse-IsBounded :
    (rt : Runtime) (t : Line) → (length (parse rt t) ≤ max_entries) × All IsBounded (parse rt t)
unfolding parse
parse-IsBounded rt t =
    let s =
      read_lines rt (unfold_lines (split_lines t) []) (record { entries = []; current = none }) in
    let h : Fine s =
      read_lines-Fine rt (unfold_lines (split_lines t) []) (record { entries = []; current = none })
        (tt, tt) in
    let l =
      if ltb (length s.entries) max_entries then appended s.entries s.current else s.entries in
    (
      omega (arith, length-take max_entries l),
      All-take IsBounded max_entries l
          (if-All _ _ s.entries (appended-IsBounded s.entries s.current h.0 h.1) h.0),
    )
