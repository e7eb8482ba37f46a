-- ===== src/Http.antt =====
-- The part of an HTTP request and answer that the middleware reads (the types of `axum::http`).
use core_swift_crm.Prelude.{ℕ, String, Option}
use core_swift_crm.Text.{Text}

-- The header names that the modelled code looks up.
pub data HeaderName : Type 0 where
  authorization x_internal_key x_real_ip x_forwarded_for content_length transfer_encoding :
      HeaderName

pub data Method : Type 0 where
  get head options post put patch delete : Method
  other : String → Method

-- `header` is `headers().get(name).and_then(|v| v.to_str().ok())`: a value that is not visible
-- ASCII reads as none. `has_header` is `contains_key`.
pub record Request : Type 0 where
  pub method : Method
  pub path : Text
  pub header : HeaderName → Option Text
  pub has_header : HeaderName → mathlib.Core.Bool.Bool

-- The answer of a middleware layer: the inner service runs, or the request is refused here.
pub data Verdict : Type 0 where
  run_next : Verdict
  refuse : ℕ → String → Verdict
