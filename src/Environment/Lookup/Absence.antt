-- ===== src/Environment/Lookup/Absence.antt =====
-- When `EnvironmentGraph.absent` reads absence.
use ipa_diagnose.Base.{
  ◌≡◌, refl, String, true, false, ◌&&◌, ◌||◌, Option, none, some, List, [], ◌∷◌, arith, ◌==◌,
  if◌then◌else◌, contains, string_eq, option_eq,
}
use text.Mathlib.TextEquality.{path_by_compare}
use ipa_diagnose.Base.Dict.{get-put_self}
use ipa_diagnose.Base.Strings.{sorted_set, insert_new}
use ipa_diagnose.TextSafe.Scan.{Unicode}
use ipa_diagnose.Environment.Types.{Kind, Enumeration, kind_eq, EnvironmentGraph, ref}
use ipa_diagnose.Environment.Graph.{set_enumeration}
use ipa_diagnose.Environment.Lookup.{absent, absent_in, is_complete}

contains-insert_new :
    (s : String) (l : List String) (x : String)
    → contains (insert_new s l) x ≡ (x == s || contains l x)
unfolding contains
contains-insert_new s [] x = refl
contains-insert_new s (t ∷ l) x = ground (arith, contains-insert_new s l x, path_by_compare s t)

contains-sorted_set : (l : List String) (x : String) → contains (sorted_set l) x ≡ contains l x
unfolding sorted_set contains
contains-sorted_set [] x = refl
contains-sorted_set (s ∷ l) x =
    ground (arith, contains-insert_new s (sorted_set l) x, contains-sorted_set l x)

-- After an enumeration is recorded, `absent` answers False exactly for its members, True for what
-- is no member if the enumeration is COMPLETE and of the kind that is asked about, and None for
-- the rest: absence is never read from a partial or failed enumeration.
pub absent-set_enumeration :
    (u : Unicode) (g : EnvironmentGraph) (name : String) (status : Enumeration)
    (listed : Option Kind) (members : List String) (reason : String) (scope : Option String)
    (kind : Kind) (key : String)
    → absent (set_enumeration u g name status listed members reason scope) name kind key ≡ (
        if contains members (ref kind key)
        then some false
        else if is_complete status && listed == some kind
        then some true
        else none)
unfolding absent set_enumeration
absent-set_enumeration u g name status listed members reason scope kind key =
    rw (get-put_self g.enumerations name _)
      (unfold absent_in in rw (contains-sorted_set members (ref kind key)) (ground arith))
