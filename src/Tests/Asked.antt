-- ===== src/Tests/Asked.antt =====
-- Targets that are parsed by ipa_diagnose/access/targets.py.
use ipa_diagnose.Base.{◌≡◌, refl, true, none, some, [], ◌∷◌, string_eq}
use ipa_diagnose.Base.Strings.{before}
use ipa_diagnose.Resolution.Text.{behind}
use ipa_diagnose.Access.Targets.{
  Runtime, Targets, parsed, failed, bad_user, principal_given, sid_domain, parse_user,
  parse_service, parse_targets,
}
use ipa_diagnose.Access.Targets.Accepted.{IsUser, IsName, IsHost, parse_targets-IsName}

-- Texts that are in lower case, and the ASCII and Arabic digits.
abbrev runtime : Runtime
runtime = record { lower = λ s. s; upper = λ s. s; digits = (48, 57) ∷ (1632, 1641) ∷ [] }

abbrev asked : Targets
asked = record {
  user = "ann";
  host = "app.lab.test";
  service = "sshd";
  user_domain = none;
  host_completed = true;
  trusted_form = none;
}

-- IPA's own domain is taken off the user, and a short host gets it.
targets_parsed :
    parse_targets runtime "ann@lab.test" "app" "sshd" (some "lab.test") none ≡ parsed asked
unfolding parse_targets string_eq before behind
targets_parsed = refl

everyone_refused : parse_user runtime "all" none none ≡ failed bad_user
unfolding parse_user string_eq
everyone_refused = refl

principal_refused : parse_service runtime "host/app.lab" ≡ failed principal_given
unfolding parse_service string_eq
principal_refused = refl

-- An identifier with an Arabic digit is taken for one of a trusted domain.
arabic_taken :
    parse_user runtime "S-1-5-21-\u{663}-2-3-4" none none
    ≡ parsed ("S-1-5-21-\u{663}-2-3-4", some sid_domain)
unfolding parse_user string_eq
arabic_taken = refl

parse_targets-IsName_example :
    IsUser runtime "ann@lab.test" asked.user asked.user_domain
    × IsName runtime.lower asked.service
    × IsHost runtime "app" (some "lab.test") asked.host asked.host_completed
parse_targets-IsName_example =
    parse_targets-IsName runtime "ann@lab.test" "app" "sshd" (some "lab.test") none asked
      targets_parsed
