-- ===== src/Environment/Kinds.antt =====
-- The kind that a reference of ipa_diagnose/environment/graph.py names (`ref`, `_kind_of`).
use ipa_diagnose.Base.{◌≡◌, refl, String, some, string_eq}
use ipa_diagnose.Base.Strings.{chars, text, before, chars-append}
use ipa_diagnose.Environment.Types.{
  Kind, server, replica, client, suffix, agreement, topology_segment, server_role,
  directory_server_instance, kdc, principal, keytab, ref, kind_of, kind_value, kind_named,
  all_kinds,
}

before-ref :
    (kind : Kind) (key : String) → text (before b':' (chars (ref kind key))) ≡ kind_value kind
unfolding ref chars before
before-ref server key = simp chars-append
before-ref replica key = simp chars-append
before-ref client key = simp chars-append
before-ref suffix key = simp chars-append
before-ref agreement key = simp chars-append
before-ref topology_segment key = simp chars-append
before-ref server_role key = simp chars-append
before-ref directory_server_instance key = simp chars-append
before-ref kdc key = simp chars-append
before-ref principal key = simp chars-append
before-ref keytab key = simp chars-append

named_lem : (kind : Kind) → kind_named all_kinds (kind_value kind) ≡ some kind
unfolding string_eq
named_lem server = refl
named_lem replica = refl
named_lem client = refl
named_lem suffix = refl
named_lem agreement = refl
named_lem topology_segment = refl
named_lem server_role = refl
named_lem directory_server_instance = refl
named_lem kdc = refl
named_lem principal = refl
named_lem keytab = refl

-- The kind that is read back from a reference is the one that it was made of, whatever the key is.
pub kind_of-ref : (kind : Kind) (key : String) → kind_of (ref kind key) ≡ some kind
unfolding kind_of
kind_of-ref kind key = rw (before-ref kind key) (named_lem kind)
