-- ===== src/Errors/Tests.antt =====
-- An answer and two page requests, and the theorems at them.
use core_swift_crm.Prelude.{◌≡◌, refl, some}
use core_swift_crm.Prelude.Int.{pos, negsuc}
use core_swift_crm.Errors.{database, into_response, validate_pagination}
use core_swift_crm.Errors.Laws.{into_response-redact}

clamped : validate_pagination (some (negsuc 4)) (some (pos 5000)) ≡ (pos 1, pos 100)
unfolding validate_pagination
clamped = refl

into_response-redact_example : into_response (database "password=x") ≡ into_response (database "")
into_response-redact_example = into_response-redact (database "password=x")
