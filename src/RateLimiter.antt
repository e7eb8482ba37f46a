-- ===== src/RateLimiter.antt =====
-- rate_limiter.rs: which requests are limited, by which limiter, and under which key.
-- The limiters are those of the `governor` crate: `check_key` is one call of a keyed limiter, its
-- store before and after. `parse_ip` is `str::parse::<IpAddr>`, `is_loopback` the address's test.
pub mod Laws
mod Tests
use core_swift_crm.Prelude.{
  Bool, true, false, ◌&&◌, ◌||◌, not, Option, none, some, List, [], ◌∷◌, if◌then◌else◌, any,
}
use core_swift_crm.Http.{
  Request, Verdict, run_next, refuse, authorization, x_real_ip, x_forwarded_for,
}
use core_swift_crm.Text.{Text, codes, is_empty, text_eq, starts_with, strip_prefix}
use core_swift_crm.Text.Split.{last_part}
use core_swift_crm.Text.Trim.{trim}

abbrev pub exempt_prefixes : List Text
exempt_prefixes =
    codes "/api/health"
    ∷ codes "/api/ready"
    ∷ codes "/api/internal/"
    ∷ codes "/api/v1/internal/"
    ∷ codes "/api/webhook"
    ∷ codes "/api/v1/webhooks"
    ∷ codes "/api/messages/webhook"
    ∷ codes "/api/external/"
    ∷ codes "/api/telnyx/webhook"
    ∷ codes "/api/telnyx/sms-webhook"
    ∷ codes "/api/google-calendar/webhook"
    ∷ codes "/api/events/ingest/"
    ∷ codes "/inbound"
    ∷ []

pub is_rate_limited_surface : Text → Bool
is_rate_limited_surface path =
    (starts_with path (codes "/api/")
      || text_eq path (codes "/api")
      || starts_with path (codes "/s/")
      || starts_with path (codes "/track/")
      || starts_with path (codes "/inbound"))
    && not (any (λ prefix. starts_with path prefix) exempt_prefixes)

pub has_bearer_credential : Request → Bool
has_bearer_credential req = elim (req.header authorization) [
  | none ↦ false
  | some v ↦ elim (strip_prefix v (codes "Bearer ")) [
    | none ↦ false
    | some token ↦ not (is_empty (trim token))
  ]
]

module _ {Ip : Type 0} (parse_ip : Text → Option Ip) (localhost : Ip) where
  from_forwarded : Option Text → Ip
  from_forwarded none = localhost
  from_forwarded (some forwarded) = elim (parse_ip (trim (last_part b',' forwarded))) [
    | some ip ↦ ip
    | none ↦ localhost
  ]

  pub extract_client_ip : Request → Ip
  unfolding from_forwarded
  extract_client_ip req = elim (req.header x_real_ip) [
    | none ↦ from_forwarded (req.header x_forwarded_for)
    | some real ↦ elim (parse_ip (trim real)) [
      | some ip ↦ ip
      | none ↦ from_forwarded (req.header x_forwarded_for)
    ]
  ]

-- The four limiters, as the states of their stores.
pub record RateLimiterState (Store : Type 0) : Type 0 where
  pub auth_limiter : Store
  pub api_limiter : Store
  pub password_limiter : Store
  pub console_limiter : Store

-- The libraries that the middleware calls.
pub record Env (Ip Store : Type 0) : Type 0 where
  pub parse_ip : Text → Option Ip
  pub localhost : Ip
  pub is_loopback : Ip → Bool
  pub check_key : Store → Ip → Bool × Store

abbrev pub rate_limit_response : Verdict
rate_limit_response = refuse 429 "Too many requests. Please slow down."

abbrev verdict : Bool → Verdict
verdict true = run_next
verdict false = rate_limit_response

module _ {Ip Store : Type 0} (env : Env Ip Store) (state : RateLimiterState Store)
    (req : Request) where
  client : Ip
  client = extract_client_ip env.parse_ip env.localhost req

  pub auth_rate_limit_middleware : Verdict × RateLimiterState Store
  unfolding client
  auth_rate_limit_middleware =
      if env.is_loopback client
      then (run_next, state)
      else let (allowed, store) = env.check_key state.auth_limiter client in
        (verdict allowed, record state { auth_limiter = store })

  pub password_rate_limit_middleware : Verdict × RateLimiterState Store
  unfolding client
  password_rate_limit_middleware =
      if env.is_loopback client
      then (run_next, state)
      else let (allowed, store) = env.check_key state.password_limiter client in
        (verdict allowed, record state { password_limiter = store })

  pub api_rate_limit_middleware : Verdict × RateLimiterState Store
  unfolding client
  api_rate_limit_middleware =
      if not (is_rate_limited_surface req.path)
      then (run_next, state)
      else if env.is_loopback client
      then (run_next, state)
      else if has_bearer_credential req
      then (let (allowed, store) = env.check_key state.console_limiter client in
          (verdict allowed, record state { console_limiter = store }))
      else let (allowed, store) = env.check_key state.api_limiter client in
        (verdict allowed, record state { api_limiter = store })
