-- ===== src/Diagnosis/Causes.antt =====
-- Which diagnosis can be the cause of another: `_effective_pack`, `_implicit_cause` and
-- `_explains_source` of ipa_diagnose/engine/correlate.py.
use ipa_diagnose.Base.{
  String, Char, code, ◌<>◌, Bool, true, false, ◌&&◌, ◌||◌, not, Option, none, some, List, [], ◌∷◌,
  ◌++◌, map, ◌==◌, eqb, if◌then◌else◌, any, contains, drop, filter, string_eq, starts_with,
}
use ipa_diagnose.Base.Dict.{Dict, get}
use ipa_diagnose.Base.Strings.{chars, text, before}
use ipa_diagnose.Diagnosis.Types.{Diagnosis, Surroundings}

-- `_SERVICE_PACK`
unfoldable pub service_pack : Dict String String
service_pack =
    ("dirsrv", "directory-server")
    ∷ ("krb5kdc", "kerberos")
    ∷ ("named", "dns")
    ∷ ("named-pkcs11", "dns")
    ∷ ("pki-tomcatd", "certificates")
    ∷ ("pki_tomcatd", "certificates")
    ∷ ("certmonger", "certificates")
    ∷ []

abbrev pub service_prefix : String
service_prefix = "service-not-running-"

-- `rule_id[len("service-not-running-"):].split("@")[0]`
unfoldable pub service_of : String → String
unfolding chars before
service_of rule_id = text (before b'@' (drop 20 (chars rule_id)))

abbrev pub or_else : Option String → String → String
or_else none s = s
or_else (some t) s = t

-- A rule of the healthcheck pack that says that a service is not running
unfoldable pub is_service_rule : Diagnosis → Bool
is_service_rule d = d.pack_id == "healthcheck" && starts_with d.rule_id service_prefix

-- `_effective_pack`
unfoldable pub effective_pack : Diagnosis → String
unfolding is_service_rule service_of service_pack
effective_pack d =
    if is_service_rule d
    then or_else (get service_pack (service_of d.rule_id)) d.pack_id
    else d.pack_id

abbrev tomcat_down : List String
tomcat_down =
    "healthcheck.service-not-running-pki-tomcatd*" ∷ "healthcheck.service-not-running-pki_tomcatd*"
    ∷ []

abbrev needs_dirsrv : List String
needs_dirsrv =
    "krb5kdc" ∷ "kadmin" ∷ "httpd" ∷ "ipa-custodia" ∷ "pki-tomcatd" ∷ "pki_tomcatd"
    ∷ "ipa-dnskeysyncd" ∷ "named" ∷ "named-pkcs11" ∷ []

-- `_IMPLICIT_RULE_UPSTREAMS`
unfoldable pub implicit_upstreams : Dict String (List String)
implicit_upstreams =
    (("kerberos.kdc-discovery-failure", "healthcheck.service-not-running-dirsrv*" ∷ [])
      ∷ (
        "dns.srv-autodiscovery",
        "dns.named-service-down" ∷ "healthcheck.service-not-running-named"
            ∷ "healthcheck.service-not-running-named-pkcs11" ∷ [],
      )
      ∷ ("certificates.certmonger-tracking-stuck", tomcat_down)
      ∷ ("certificates.ra-agent-desync", tomcat_down)
      ∷ ("healthcheck.service-not-running-dirsrv*", "directory-server.disk-space-exhaustion" ∷ [])
      ∷ [])
    ++ map
        (λ svc. (
          "healthcheck.service-not-running-" <> svc,
          "healthcheck.service-not-running-dirsrv*" ∷ [],
        ))
        needs_dirsrv

-- A pattern without its last character, if that is a star.
unfoldable pub starred : List Char → Option (List Char)
starred [] = none
starred (c ∷ []) = if eqb (code c) b'*' then some [] else none
starred (c ∷ d ∷ r) = elim (starred (d ∷ r)) [ none ↦ none | some p ↦ some (c ∷ p) ]

-- `match`
unfoldable pub matches : String → String → Bool
unfolding starred chars
matches pattern value =
    value == pattern
    || elim (starred (chars pattern)) [ none ↦ false | some p ↦ starts_with value (text p) ]

-- `_implicit_cause`: `u` causes `d`.
unfoldable pub implicit_cause : Diagnosis → Diagnosis → Bool
unfolding matches implicit_upstreams any
implicit_cause d u =
    u.explains_downstream
    && any (λ e. matches e.0 d.diagnosis_id && any (λ c. matches c u.diagnosis_id) e.1)
        implicit_upstreams

-- `_SAFETY_NETS`
abbrev pub safety_nets : List String
safety_nets = "healthcheck-check-failed" ∷ "unexplained-findings" ∷ []

unfoldable pub is_safety_net : Diagnosis → Bool
is_safety_net d = d.pack_id == "healthcheck" && contains safety_nets d.rule_id

-- `_CHECKS_ASKING_SERVICE`
unfoldable pub asks_service : String → String → Bool
asks_service service check = service == "certmonger" && contains ("IPACertmongerCA" ∷ []) check

-- `_is_service_down`
unfoldable pub is_service_down : Diagnosis → Bool
unfolding is_service_rule
is_service_down u = is_service_rule u || u.diagnosis_id == "dns.named-service-down"

-- `key.partition("::")`, without its middle part
unfoldable pub partition_colons : List Char → List Char × List Char
partition_colons [] = ([], [])
partition_colons (c ∷ []) = (c ∷ [], [])
partition_colons (c ∷ d ∷ r) =
    let rest = partition_colons (d ∷ r) in
    if eqb (code c) b':' && eqb (code d) b':' then ([], r) else (c ∷ rest.0, rest.1)

-- `_pack_sources`
unfoldable pub pack_sources : Surroundings → String → List String
pack_sources world pack_id = concat (map (λ p. p.1) (filter (λ p. p.0 == pack_id) world.packs))
  where
    concat : List (List String) → List String
    concat [] = []
    concat (l ∷ ls) = l ++ concat ls

-- `_explains_source`
unfoldable pub explains_source : Surroundings → Diagnosis → String → Bool → Bool
unfolding partition_colons chars service_of asks_service effective_pack pack_sources any
explains_source world u key crashed =
    let parts = partition_colons (chars key) in
    let source = text parts.0 in
    let check = text parts.1 in
    let dirsrv = u.pack_id == "healthcheck" && service_of u.rule_id == "dirsrv" in
    let service = if starts_with u.rule_id service_prefix then service_of u.rule_id else "" in
    if starts_with source "ipahealthcheck.system.filesystemspace"
    then false
    else if dirsrv && crashed
    then true
    else if starts_with source "ipahealthcheck.meta.services"
    then true
    else if not crashed
    then asks_service service check
    else any (λ p. starts_with source p) (pack_sources world (effective_pack u))
