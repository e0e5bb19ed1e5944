-- ===== src/Replication/Causal.antt =====
-- ipa_diagnose/replication/causal.py: the capability DAG, the registry of discriminators, and the
-- check that a cause chain takes only registered steps of the DAG.
pub mod Proven
pub mod Dag
use ipa_diagnose.Base.{
  ℕ, suc, String, Bool, true, false, ◌&&◌, ◌||◌, not, Option, none, some, List, [], ◌∷◌, ◌++◌, map,
  ◌==◌, if◌then◌else◌, contains, string_eq,
}
use ipa_diagnose.Base.Dict.{Dict, get}
use ipa_diagnose.Base.Strings.{sorted, str_lt}
use ipa_diagnose.Base.Value.{Value, null, str, array, dict, Items, nil, cons, Fields, end, field}

-- `SYMPTOM`
abbrev pub symptom : String
symptom = "SYMPTOM"

-- `DEPENDS_ON`
abbrev pub depends_on : Dict String (List String)
depends_on =
    (
      "REPLICATION",
      "LOCAL_DS" ∷ "DNS" ∷ "NETWORK" ∷ "PEER_DS" ∷ "TLS" ∷ "KERBEROS" ∷ "AUTHORIZATION"
          ∷ "REPLICA_DATA" ∷ [],
    )
    ∷ ("KERBEROS", "LOCAL_KDC" ∷ "TIME" ∷ "PRINCIPAL" ∷ "KEYTAB" ∷ "DNS" ∷ "NETWORK" ∷ [])
    ∷ ("PEER_DS", "NETWORK" ∷ [])
    ∷ ("NETWORK", "DNS" ∷ [])
    ∷ ("LOCAL_DS", "STORAGE" ∷ [])
    ∷ ("LOCAL_KDC", "LOCAL_DS" ∷ [])
    ∷ ("AUTHORIZATION", "PRINCIPAL" ∷ [])
    ∷ ("TLS", "TIME" ∷ [])
    ∷ ("DNS", [])
    ∷ ("TIME", [])
    ∷ ("PRINCIPAL", [])
    ∷ ("KEYTAB", [])
    ∷ ("STORAGE", [])
    ∷ ("REPLICA_DATA", [])
    ∷ ("TOPOLOGY", "LOCAL_DS" ∷ [])
    ∷ []

pub record Discriminator : Type 0 where
  pub disc_id : String
  -- the capability that the link starts from
  pub source : String
  pub target : String
  -- the rule, in words
  pub rule : String

abbrev discriminator : String → String → String → String → Discriminator
discriminator i s t r = record { disc_id = i; source = s; target = t; rule = r }

-- The discriminators in the order of the source.
abbrev pub registry : List Discriminator
registry =
    discriminator "agreement-status" symptom "REPLICATION"
      "the agreement's last update status (389-DS text/JSON) falls in a failing class of replication.status"
    ∷ discriminator "local-ds-down" symptom "LOCAL_DS"
        "this server's Directory Server unit is not active (systemd), so its agreements cannot run or be read"
    ∷ discriminator "local-kdc-down" symptom "LOCAL_KDC"
        "this server's krb5kdc unit is not active (systemd)"
    ∷ discriminator "local-storage" symptom "STORAGE"
        "the Directory Server's file system is read-only or has less free space than the threshold"
    ∷ discriminator "ds-keytab-local" symptom "KEYTAB"
        "the Directory Server keytab is missing, not readable by the dirsrv user, or lacks this server's ldap/ key"
    ∷ discriminator "pair-clock-skew" symptom "TIME"
        "this host's clock differs from the peer's root DSE currentTime by at least the 300 s Kerberos tolerance"
    ∷ discriminator "peer-name-unresolved-now" symptom "DNS"
        "the peer's name does not resolve through this host's resolver now (the agreement's recorded status may still show its last session as successful)"
    ∷ discriminator "peer-ds-refused-now" symptom "PEER_DS"
        "the agreement's LDAP port is refused now while 443 on the same peer accepts connections (the recorded status may still show the last session as successful)"
    ∷ discriminator "peer-no-ldap-answer-now" symptom "PEER_DS"
        "this host's own read of the peer's root DSE gets no LDAP answer now (the recorded status may still show the last session as successful)"
    ∷ discriminator "peer-tls-fails-now" symptom "TLS"
        "this host's own TLS connection to the agreement's port fails at the TLS layer now"
    ∷ discriminator "reverse-acceptor-kerberos" "REPLICATION" "KERBEROS"
        "the peer's agreement towards this server fails with LDAP 49 or 389-DS's generic Local error (no specific Kerberos class, no measured skew of 300 s or more): its GSSAPI bind fails, and this server accepts it"
    ∷ discriminator "acceptor-keytab-unusable" "KERBEROS" "KEYTAB"
        "this server, the accepting side of that GSSAPI bind, cannot use its own Directory Server keytab (missing, not readable by dirsrv, or without its ldap/ key)"
    ∷ discriminator "status-transport" "REPLICATION" "PEER_DS"
        "status class TRANSPORT and this host's own read of the peer's root DSE gets no LDAP answer"
    ∷ discriminator "peer-ds-refused-host-up" "REPLICATION" "PEER_DS"
        "status class TRANSPORT, the agreement's LDAP port is REFUSED while 443 on the same peer accepts connections: the host is up and reachable; its Directory Server is not accepting connections on that port"
    ∷ discriminator "peer-name-unresolved" "REPLICATION" "DNS"
        "status class TRANSPORT and the peer's name does not resolve through this host's resolver (getent)"
    ∷ discriminator "peer-unreachable" "PEER_DS" "NETWORK"
        "TCP to the agreement's port AND to 443 on the peer time out or are unreachable from this host"
    ∷ discriminator "status-gssapi" "REPLICATION" "KERBEROS"
        "status class is a GSSAPI/Kerberos class, or this host's reproduction of the supplier's GSSAPI bind fails with one"
    ∷ discriminator "kerberos-no-kdc-local-down" "KERBEROS" "LOCAL_KDC"
        "the Kerberos error is 'cannot contact any KDC' and this server's own krb5kdc is not active"
    ∷ discriminator "kdc-needs-local-ds" "LOCAL_KDC" "LOCAL_DS"
        "krb5kdc is not active and this server's Directory Server (the KDC's database back end) is not active either"
    ∷ discriminator "kerberos-clock-skew" "KERBEROS" "TIME"
        "a Kerberos clock-skew error and this host's clock differs from the peer's root DSE currentTime by at least the 300 s Kerberos tolerance"
    ∷ discriminator "kerberos-server-principal-absent" "KERBEROS" "PRINCIPAL"
        "'server not found in Kerberos database' and the peer's ldap/ service principal is absent from this server's complete list of ldap/ principals"
    ∷ discriminator "kerberos-local-credentials" "KERBEROS" "KEYTAB"
        "a Kerberos credentials error and the Directory Server keytab is missing, unreadable for dirsrv, lacks the ldap/ key of this server, or the KDC rejects that key (kinit -k)"
    ∷ discriminator "status-invalid-credentials-gssapi" "REPLICATION" "KERBEROS"
        "status LDAP 49 on a SASL/GSSAPI agreement, and this host's reproduction obtains its ticket but the peer rejects the GSSAPI bind with LDAP 49 as well (the failure is on the accepting side)"
    ∷ discriminator "status-access" "REPLICATION" "AUTHORIZATION"
        "status class INSUFFICIENT_ACCESS (LDAP 50 / replication permission denied)"
    ∷ discriminator "access-not-a-manager" "AUTHORIZATION" "PRINCIPAL"
        "this server's ldap/ principal is not a member of cn=replication managers in this server's copy of the directory (the peer's copy may differ)"
    ∷ discriminator "status-data" "REPLICATION" "REPLICA_DATA"
        "status class says the consumer's data needs administrator action (changelog purged, generation ID mismatch, replica ID conflict, re-initialization required)"
    ∷ discriminator "status-tls" "REPLICATION" "TLS"
        "status class TLS, or the status says the connection failed and this host's own TLS connection to the agreement's port fails at the TLS layer"
    ∷ discriminator "kerberos-49-with-measured-skew" "KERBEROS" "TIME"
        "a GSSAPI bind refused with LDAP 49 (this host obtained its ticket) and a clock difference of at least the 300 s Kerberos tolerance measured between the two servers"
    ∷ discriminator "storage-under-ds" "LOCAL_DS" "STORAGE"
        "the Directory Server is not active and its file system is read-only or nearly full"
    ∷ []

-- `{d.disc_id: d for d in [...]}`
unfoldable pub discriminators : Dict String Discriminator
discriminators = map (λ d. (d.disc_id, d)) registry

pub record Link : Type 0 where
  pub claim : String
  pub subject : String
  pub capability : String
  pub evidence : List String
  pub discriminator : String
  pub scope : String

pub record Chain : Type 0 where
  pub chain_id : String
  pub subject : String
  pub links : List Link
  pub boundary : String
  pub next_action : List String
  pub handoff : Option Fields

abbrev items : List Value → Items
items [] = nil
items (v ∷ l) = cons v (items l)

abbrev texts : List String → Value
texts l = array (items (map str l))

-- `Link.as_dict`
unfoldable pub link_dict : Link → Value
link_dict l = dict (
    field "claim" (str l.claim) (
      field "subject" (str l.subject) (
        field "capability" (str l.capability) (
          field "evidence" (texts l.evidence)
            (field "discriminator" (str l.discriminator) (field "scope" (str l.scope) end))))))

-- `links[-1]`, an IndexError for a chain without links
abbrev pub last : List Link → Option Link
last [] = none
last (l ∷ []) = some l
last (l ∷ m ∷ r) = last (m ∷ r)

unfoldable pub root : Chain → Option Link
root c = last c.links

-- `dict(self.handoff) if self.handoff else None`
abbrev handoff_value : Option Fields → Value
handoff_value none = null
handoff_value (some end) = null
handoff_value (some (field k v fs)) = dict (field k v fs)

-- `Chain.as_dict`
unfoldable pub chain_dict : Chain → Option Value
unfolding link_dict root
chain_dict c = elim (root c) [
  | none ↦ none
  | some deepest ↦ some (
      dict (
        field "chain_id" (str c.chain_id) (
          field "subject" (str c.subject) (
            field "links" (array (items (map link_dict c.links))) (
              field "deepest_proven" (link_dict deepest) (
                field "boundary" (str c.boundary) (
                  field "next_action" (texts c.next_action)
                    (field "handoff" (handoff_value c.handoff) end))))))))
]

-- `ChainError`, by the guard that raises it
pub data ChainError : Type 0 where
  unknown_discriminator other_step not_in_dag no_evidence : ChainError

abbrev pub or_empty : Option (List String) → List String
or_empty none = []
or_empty (some l) = l

abbrev pub is_empty : List String → Bool
is_empty [] = true
is_empty (_ ∷ _) = false

abbrev pub first_error : Bool → Bool → Bool → Option ChainError
first_error true b c = some other_step
first_error false true c = some not_in_dag
first_error false false true = some no_evidence
first_error false false false = none

-- The guards for one link after `prev`.
abbrev pub check_step : String → Link → Discriminator → Option ChainError
check_step prev l d =
    first_error (not (d.source == prev) || not (d.target == l.capability))
      (not (prev == symptom) && not (contains (or_empty (get depends_on prev)) l.capability))
      (is_empty l.evidence)

abbrev pub check_found : String → Link → Option Discriminator → Option ChainError
check_found prev l none = some unknown_discriminator
check_found prev l (some d) = check_step prev l d

unfoldable pub check_link : String → Link → Option ChainError
check_link prev l = check_found prev l (get discriminators l.discriminator)

-- The error of a link, or what the links after it give.
abbrev pub raised : Option ChainError → ℕ → Option (ChainError × ℕ) → Option (ChainError × ℕ)
raised none i rest = rest
raised (some e) i rest = some (e, i)

-- The loop over the links: the first error and the number of its link.
unfoldable pub check_links : List Link → String → ℕ → Option (ChainError × ℕ)
check_links [] prev i = none
check_links (l ∷ ls) prev i = raised (check_link prev l) i (check_links ls l.capability (suc i))

unfoldable pub check_chain : Chain → Option (ChainError × ℕ)
unfolding check_links
check_chain c = check_links c.links symptom 0

-- `(a, b) < (c, d)` on pairs of texts
abbrev pub pair_lt : String × String → String × String → Bool
pair_lt (a, b) (c, d) = str_lt a c || (a == c && str_lt b d)

abbrev pub pairs : Dict String (List String) → List (String × String)
pairs [] = []
pairs ((a, bs) ∷ d) = map (λ b. (a, b)) bs ++ pairs d

unfoldable pub edges : List (String × String)
unfolding sorted
edges = sorted pair_lt (pairs depends_on)
