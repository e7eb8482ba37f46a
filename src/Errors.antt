-- ===== src/Errors.antt =====
-- errors.rs: the error type of every handler, and the answer that it becomes. What a library's
-- error prints is a text here; it goes to the log and not to the caller.
pub mod Laws
mod Tests
use core_swift_crm.Prelude.{ℕ, String, Bool, true, Option, none, some}
use core_swift_crm.Prelude.Int.{ℤ, pos, max_ℤ, min_ℤ}

pub data AppError : Type 0 where
  unauthorized invalid_credentials forbidden : AppError
  unauthorized_reason upgrade_required not_found duplicate conflict : String → AppError
  validation bad_request service_unavailable : String → AppError
  database redis jwt : String → AppError
  hash internal : String → AppError

pub record ErrorBody : Type 0 where
  pub error : Bool
  pub message : String
  pub code : ℕ

pub record Response : Type 0 where
  pub status : ℕ
  pub body : ErrorBody

abbrev status_and_message : AppError → ℕ × String
status_and_message unauthorized = (401, "Authentication required")
status_and_message invalid_credentials = (401, "Invalid credentials")
status_and_message (unauthorized_reason msg) = (401, msg)
status_and_message forbidden = (403, "Insufficient permissions")
status_and_message (upgrade_required msg) = (402, msg)
status_and_message (not_found msg) = (404, msg)
status_and_message (duplicate msg) = (409, msg)
status_and_message (conflict msg) = (409, msg)
status_and_message (validation msg) = (422, msg)
status_and_message (bad_request msg) = (400, msg)
status_and_message (service_unavailable msg) = (503, msg)
status_and_message (hash msg) = (500, "Password hashing error")
status_and_message (internal msg) = (500, "Internal server error")
status_and_message (database e) = (500, "Database error")
status_and_message (redis e) = (500, "Cache error")
status_and_message (jwt e) = (401, "Invalid token")

pub into_response : AppError → Response
into_response e =
    let (status, message) = status_and_message e in
    record { status = status; body = record { error = true; message = message; code = status } }

abbrev unwrap_or : Option ℤ → ℤ → ℤ
unwrap_or none d = d
unwrap_or (some v) d = v

-- `i64` arguments; `max` and `clamp` stay in range.
pub validate_pagination : Option ℤ → Option ℤ → ℤ × ℤ
validate_pagination page per_page = (
  max_ℤ (unwrap_or page (pos 1)) (pos 1),
  min_ℤ (max_ℤ (unwrap_or per_page (pos 50)) (pos 1)) (pos 100),
)
