-- ===== src/Tests/Ldif.antt =====
-- Texts that are read by ipa_diagnose/replication/ldif.py.
use ipa_diagnose.Base.{◌≡◌, ◌≤◌, refl, none, [], ◌∷◌, length, All, string_eq}
use ipa_diagnose.Base.Strings.{chars}
use ipa_diagnose.Replication.Ldif.{Runtime, Line, max_entries, parse}
use ipa_diagnose.Replication.Ldif.Bounds.{IsBounded, parse-IsBounded}
use ipa_diagnose.Tests.Text.{ascii}

-- Texts that are in lower case; no base64 is decoded.
abbrev runtime : Runtime
runtime = record { unicode = ascii; lower = λ s. s; decode = λ t. none }

abbrev printed : Line
unfolding chars
printed = chars "dn: cn=a,\n dc=lab\n# note\ncn: a\ncn:: YQ==\ncn: b\n\ndn: cn=b\n"

both_read :
    parse runtime printed
    ≡ record { dn = chars "cn=a,dc=lab"; attributes = ("cn", chars "a" ∷ chars "b" ∷ []) ∷ [] }
      ∷ record { dn = chars "cn=b"; attributes = [] }
      ∷ []
unfolding printed parse string_eq chars
both_read = refl

parse-IsBounded_example :
    (length (parse runtime printed) ≤ max_entries) × All IsBounded (parse runtime printed)
parse-IsBounded_example = parse-IsBounded runtime printed
