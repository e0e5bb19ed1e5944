-- ===== src/TextSafe/Bounds.antt =====
-- What ipa_diagnose/textsafe.py guarantees of its results: their length, and their characters.
use ipa_diagnose.Base.{
  ℕ, ◌-◌, ◌≤◌, ◌≡◌, refl, inl, inr, Char, String, Bool, true, false, ◌||◌, Option, none, some, List,
  [], ◌∷◌, ◌++◌, map, arith, if◌then◌else◌, length, take, All, All-append, All-take, length-append,
  length-take, Bool-cases,
}
use ipa_diagnose.Base.Strings.{chars, chars-text}
use ipa_diagnose.TextSafe.Scan.{Unicode, blank, is_char, rfind, rstrip, split, split_from, join}
use ipa_diagnose.TextSafe.{
  shown, ellipsis, is_trailing, word_cut, bounded, cleaned, strip_escapes, sanitize_chars,
  sanitize_text,
}

length-rstrip-le : (p : Char → Bool) (t : List Char) → length (rstrip p t) ≤ length t
unfolding rstrip
length-rstrip-le p [] = omega arith
length-rstrip-le p (c ∷ r) = ground (arith, length-rstrip-le p r)

length-word_cut-le :
    (room : ℕ) (cut : List Char) (o : Option ℕ) → length (word_cut room cut o) ≤ length cut
unfolding word_cut
length-word_cut-le room cut none = ground (arith, length-take (length cut - 1) cut)
length-word_cut-le room cut (some i) = ground (arith, length-take i cut)

length-bounded-le : (t : List Char) (limit : ℕ) → length (bounded t limit) ≤ limit
unfolding bounded
length-bounded-le t limit = ground (
  arith,
  length-take limit t,
  length-take (limit - 3) t,
  length-append
      (rstrip is_trailing (word_cut (limit - 3) (take (limit - 3) t) (rfind (take (limit - 3) t))))
      ellipsis,
  length-rstrip-le is_trailing
      (word_cut (limit - 3) (take (limit - 3) t) (rfind (take (limit - 3) t))),
  length-word_cut-le (limit - 3) (take (limit - 3) t) (rfind (take (limit - 3) t)),
)

-- A sanitised text is never longer than its limit, whatever the input and the limit are.
pub length-sanitize_text-le :
    (u : Unicode) (s : String) (limit : ℕ) → length (chars (sanitize_text u s limit)) ≤ limit
unfolding sanitize_text
length-sanitize_text-le u s limit =
    rw (chars-text (sanitize_chars u (chars s) limit))
      (unfold sanitize_chars in length-bounded-le (cleaned u (chars s)) limit)

module _ (u : Unicode) where
  -- A blank, or a character that Python calls printable.
  abbrev pub IsShown : Char → Type 0
  IsShown c = (is_char 32 c || u.is_printable c) ≡ true

  shown-IsShown : (c : Char) → IsShown (shown u c)
  unfolding is_char
  shown-IsShown c = elim (Bool-cases (is_char 32 c || u.is_printable c)) [
    | inl e ↦ rw (e, e)
    | inr e ↦ rw e refl
  ]

  map-shown-IsShown : (t : List Char) → All IsShown (map (shown u) t)
  map-shown-IsShown [] = tt
  map-shown-IsShown (c ∷ t) = (shown-IsShown c, map-shown-IsShown t)

  split_from-IsShown :
      (w t : List Char) → All IsShown w → All IsShown t → All (All IsShown) (split_from u w t)
  unfolding split_from
  split_from-IsShown [] [] h k = tt
  split_from-IsShown (w ∷ ws) [] h k = (h, tt)
  split_from-IsShown [] (c ∷ r) h k =
      elim (u.is_space c) as (λ b. All (All IsShown) (split_from u (if b then [] else c ∷ []) r)) [
        | true ↦ split_from-IsShown [] r tt k.1
        | false ↦ split_from-IsShown (c ∷ []) r (k.0, tt) k.1
      ]
  split_from-IsShown (w ∷ ws) (c ∷ r) h k =
      elim (u.is_space c)
        as (λ b.
          All (All IsShown)
            (if b then (w ∷ ws) ∷ split_from u [] r else split_from u ((w ∷ ws) ++ c ∷ []) r)) [
              | true ↦ (h, split_from-IsShown [] r tt k.1)
              | false ↦
                  split_from-IsShown (w ∷ (ws ++ c ∷ [])) r
                    (All-append IsShown (w ∷ ws) (c ∷ []) h (k.0, tt)) k.1
            ]

  join-IsShown : (ws : List (List Char)) → All (All IsShown) ws → All IsShown (join ws)
  unfolding join is_char
  join-IsShown [] h = tt
  join-IsShown (w ∷ []) h = h.0
  join-IsShown (w ∷ v ∷ ws) h =
      All-append IsShown w (blank ∷ join (v ∷ ws)) h.0 (refl, join-IsShown (v ∷ ws) h.1)

  rstrip-IsShown : (p : Char → Bool) (t : List Char) → All IsShown t → All IsShown (rstrip p t)
  unfolding rstrip
  rstrip-IsShown p [] h = tt
  rstrip-IsShown p (c ∷ r) h = ground (arith, rstrip-IsShown p r h.1, h.0)

  word_cut-IsShown :
      (room : ℕ) (cut : List Char) (o : Option ℕ)
      → All IsShown cut
      → All IsShown (word_cut room cut o)
  unfolding word_cut
  word_cut-IsShown room cut none h = ground (arith, All-take IsShown (length cut - 1) cut h)
  word_cut-IsShown room cut (some i) h = ground (arith, All-take IsShown i cut h)

  cleaned-IsShown : (t : List Char) → All IsShown (cleaned u t)
  unfolding cleaned split
  cleaned-IsShown t =
      join-IsShown _ (split_from-IsShown [] _ tt (map-shown-IsShown (strip_escapes (take 4096 t))))

  module _ (dot : u.is_printable "." ≡ true) where
    ellipsis-IsShown : All IsShown ellipsis
    unfolding is_char
    ellipsis-IsShown = rw dot (refl, (refl, (refl, tt)))

    bounded-IsShown : (t : List Char) (limit : ℕ) → All IsShown t → All IsShown (bounded t limit)
    unfolding bounded
    bounded-IsShown t limit h =
        let cut = take (limit - 3) t in
        let kept = word_cut (limit - 3) cut (rfind cut) in
        ground (
          arith,
          h,
          All-take IsShown limit t h,
          All-append IsShown (rstrip is_trailing kept) ellipsis
              (rstrip-IsShown is_trailing kept
                (word_cut-IsShown (limit - 3) cut (rfind cut) (All-take IsShown (limit - 3) t h)))
              ellipsis-IsShown,
        )

-- Every character of a sanitised text is a blank or printable, so no escape sequence, control or
-- format character is left, at any limit; the full stop of the ellipsis counts as printable.
pub sanitize_text-IsShown :
    (u : Unicode) (s : String) (limit : ℕ)
    → u.is_printable "." ≡ true
    → All (IsShown u) (chars (sanitize_text u s limit))
unfolding sanitize_text sanitize_chars
sanitize_text-IsShown u s limit dot =
    rw (chars-text (bounded (cleaned u (chars s)) limit))
      (bounded-IsShown u dot (cleaned u (chars s)) limit (cleaned-IsShown u (chars s)))
