-- ===== src/Errors/Laws.antt =====
-- What every error answer has, and what it keeps back.
use core_swift_crm.Prelude.{◌≤◌, ◌≡◌, refl, true, Option, none, some, arith}
use core_swift_crm.Prelude.Int.{ℤ, pos, ◌≤ℤ◌}
use core_swift_crm.Errors.{
  AppError, unauthorized, database, redis, jwt, hash, internal, into_response, validate_pagination,
}

-- The text of an error of a library or of the server itself.
abbrev pub redact : AppError → AppError
redact (database e) = database ""
redact (redis e) = redis ""
redact (jwt e) = jwt ""
redact (hash e) = hash ""
redact (internal e) = internal ""
redact e = e

-- The caller sees nothing of the text of a database, cache, token, hashing or internal error.
pub into_response-redact : (e : AppError) → into_response e ≡ into_response (redact e)
unfolding into_response
into_response-redact (database e) = refl
into_response-redact _ = refl

-- Every error is answered with a status from 400 to 503, repeated in a body that says `error`.
pub into_response_shape :
    (e : AppError)
    → (400 ≤ (into_response e).status)
      × ((into_response e).status ≤ 503)
      × ((into_response e).body.code ≡ (into_response e).status)
      × ((into_response e).body.error ≡ true)
unfolding into_response
into_response_shape unauthorized = (omega arith, omega arith, refl, refl)
into_response_shape _ = (omega arith, omega arith, refl, refl)

-- Whatever is asked for, the page is at least 1 and a page holds 1 to 100 rows; a request within
-- those bounds is kept as it is, and a missing one means page 1 of 50 rows.
pub validate_pagination_bounds :
    (page per_page : Option ℤ)
    → (pos 1 ≤ℤ (validate_pagination page per_page).0)
      × (pos 1 ≤ℤ (validate_pagination page per_page).1)
      × ((validate_pagination page per_page).1 ≤ℤ pos 100)
      × ((p q : ℤ)
          → page ≡ some p
          → per_page ≡ some q
          → pos 1 ≤ℤ p
          → pos 1 ≤ℤ q
          → q ≤ℤ pos 100
          → validate_pagination page per_page ≡ (p, q))
      × (validate_pagination none none ≡ (pos 1, pos 50))
unfolding validate_pagination
validate_pagination_bounds page per_page =
    (ground arith, ground arith, ground arith, λ p q a b c d e. ground arith, refl)
