-- ===== src/Diagnosis/Undiagnosed/Listed.antt =====
-- No finding disappears from the report.
use ipa_diagnose.Base.{string_eq, nat_eq, option_eq}
use ipa_diagnose.Base.Dict.{Dict}
use ipa_diagnose.Diagnosis.Types.{Diagnosis, severity_eq}
