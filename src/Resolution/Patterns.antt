-- ===== src/Resolution/Patterns.antt =====
-- The patterns and tables of ipa_diagnose/resolution/types.py.
use ipa_diagnose.Base.{ℕ, ◌-◌, Char, code, String, List, [], ◌∷◌, ◌++◌}
use ipa_diagnose.Base.Strings.{chars}
use ipa_diagnose.Resolution.Regex.{Class, Regex, empty, one, seq, upto, star}

-- `[0-9]`, `[a-z]`, `[A-Z]`, and one character
abbrev pub digit : ℕ × ℕ
digit = (b'0', b'9')

abbrev pub lower_case : ℕ × ℕ
lower_case = (b'a', b'z')

abbrev pub upper_case : ℕ × ℕ
upper_case = (b'A', b'Z')

abbrev pub single : ℕ → ℕ × ℕ
single c = (c, c)

abbrev pub letter_or_digit : Class
letter_or_digit = upper_case ∷ lower_case ∷ digit ∷ []

-- `[A-Za-z0-9_.-]`
abbrev pub name_class : Class
name_class = letter_or_digit ++ single b'_' ∷ single b'.' ∷ single b'-' ∷ []

-- `k{1,n}`
abbrev pub repeated : ℕ → Class → Regex
repeated n k = seq (one k) (upto (n - 1) (one k))

-- `k` followed by at most `n` of `j`
abbrev pub leading : Class → ℕ → Class → Regex
leading k n j = seq (one k) (upto n (one j))

abbrev pub optional : Regex → Regex
optional r = upto 1 r

-- A literal text.
abbrev pub word : List Char → Regex
word [] = empty
word (c ∷ l) = seq (one (single (code c) ∷ [])) (word l)

abbrev pub path_re : Regex
path_re = seq (one (single b'/' ∷ [])) (
    repeated 4095 (
      letter_or_digit
      ++ single b'.' ∷ single b'_' ∷ single b'@' ∷ single b'+' ∷ single b'/' ∷ single b'-' ∷ []))

abbrev pub octal : Regex
octal = one ((b'0', b'7') ∷ [])

abbrev pub mode_re : Regex
mode_re = seq (one (single b'0' ∷ [])) (seq octal (seq octal octal))

abbrev pub posix_name_re : Regex
posix_name_re =
    leading (lower_case ∷ single b'_' ∷ []) 31
      (lower_case ∷ digit ∷ single b'_' ∷ single b'.' ∷ single b'-' ∷ [])

abbrev pub nickname_re : Regex
nickname_re = leading letter_or_digit 63 (name_class ++ single b' ' ∷ [])

abbrev pub request_id_re : Regex
request_id_re = repeated 40 name_class

abbrev pub instance_re : Regex
instance_re = leading letter_or_digit 63 name_class

abbrev pub unit_re : Regex
unfolding chars
unit_re =
    seq (leading letter_or_digit 126 (name_class ++ single b'@' ∷ [])) (word (chars ".service"))

-- `[ugo]`, the sign, `[rwx]{1,3}`
abbrev pub permission : ℕ → Regex
permission sign =
    seq (one (single b'u' ∷ single b'g' ∷ single b'o' ∷ []))
      (seq (one (single sign ∷ [])) (repeated 3 (single b'r' ∷ single b'w' ∷ single b'x' ∷ [])))

abbrev pub permissions : ℕ → Regex
permissions sign = seq (permission sign) (upto 2 (seq (one (single b',' ∷ [])) (permission sign)))

abbrev pub chmod_remove_re : Regex
chmod_remove_re = permissions b'-'

abbrev pub chmod_add_re : Regex
chmod_add_re = permissions b'+'

abbrev pub ipa_name_re : Regex
ipa_name_re =
    seq (one (letter_or_digit ++ single b'_' ∷ single b'.' ∷ []))
      (seq (upto 254 (one name_class)) (optional (one (name_class ++ single b'$' ∷ []))))

abbrev pub label : Regex
label = seq (one (lower_case ∷ digit ∷ [])) (
    optional
      (seq (upto 61 (one (lower_case ∷ digit ∷ single b'-' ∷ []))) (one (lower_case ∷ digit ∷ []))))

abbrev pub dot_label : Regex
dot_label = seq (one (single b'.' ∷ [])) label

abbrev pub fqdn_re : Regex
fqdn_re = seq label (seq dot_label (star dot_label))

abbrev pub realm_re : Regex
realm_re = seq (one (upper_case ∷ digit ∷ [])) (
    optional (
      seq (upto 251 (one (upper_case ∷ digit ∷ single b'.' ∷ single b'-' ∷ [])))
        (one (upper_case ∷ digit ∷ []))))

abbrev pub pam_service_re : Regex
pam_service_re = leading letter_or_digit 63 (name_class ++ single b'+' ∷ [])

abbrev pub sssd_domain_re : Regex
sssd_domain_re = leading letter_or_digit 252 name_class

-- `dc=` and a label
abbrev pub dc : Regex
unfolding chars
dc = seq (word (chars "dc=")) label

abbrev pub dc_suffix_re : Regex
dc_suffix_re = seq dc (star (seq (one (single b',' ∷ [])) dc))

-- the keys of `IPA_SERVICES`
abbrev pub ipa_services : List String
ipa_services =
    "dirsrv" ∷ "krb5kdc" ∷ "kadmin" ∷ "httpd" ∷ "ipa-custodia" ∷ "pki-tomcatd" ∷ "ipa-dnskeysyncd"
    ∷ "certmonger" ∷ "sssd" ∷ "chronyd" ∷ "gssproxy" ∷ []

abbrev pub ipa_path_prefixes : List String
ipa_path_prefixes =
    "/etc/ipa/" ∷ "/etc/pki/pki-tomcat/" ∷ "/var/lib/pki/" ∷ "/etc/dirsrv/" ∷ "/var/lib/ipa/"
    ∷ "/var/log/dirsrv/" ∷ "/var/log/pki/" ∷ "/var/log/httpd/" ∷ "/var/log/ipa/" ∷ "/etc/httpd/"
    ∷ "/var/named/" ∷ "/var/kerberos/krb5kdc/" ∷ "/etc/sssd/" ∷ "/etc/gssproxy/" ∷ "/usr/share/ipa/"
    ∷ []

abbrev pub ipa_path_exact : List String
ipa_path_exact =
    "/etc/named.conf" ∷ "/etc/named.keytab" ∷ "/etc/krb5.keytab" ∷ "/etc/krb5.conf"
    ∷ "/var/log/krb5kdc.log" ∷ "/var/log/kadmind.log" ∷ "/var/log/ipaserver-install.log"
    ∷ "/var/log/ipareplica-install.log" ∷ "/var/log/ipaclient-install.log"
    ∷ "/var/log/ipaupgrade.log" ∷ []

abbrev pub ipa_accounts : List String
ipa_accounts =
    "root" ∷ "dirsrv" ∷ "pkiuser" ∷ "named" ∷ "apache" ∷ "ipaapi" ∷ "kdcproxy" ∷ "sssd" ∷ "ods"
    ∷ "gssproxy" ∷ []

abbrev pub ipa_ports : List String
ipa_ports = "88" ∷ "389" ∷ "443" ∷ "464" ∷ "636" ∷ []

abbrev pub permission_types : List String
permission_types = "mode" ∷ "owner" ∷ "group" ∷ []

abbrev pub repl_transports : List String
repl_transports = "LDAP" ∷ "TLS" ∷ "SSL" ∷ []

abbrev pub suffix_kinds : List String
suffix_kinds = "domain" ∷ "ca" ∷ []
