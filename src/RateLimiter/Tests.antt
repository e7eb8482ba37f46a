-- ===== src/RateLimiter/Tests.antt =====
-- Requests at the limiters, and the theorems at them. The stand-in for a limiter counts down.
use core_swift_crm.Prelude.{
  inr, ℕ, ◌-◌, ◌≤◌, ◌≡◌, refl, Bool, true, false, Option, none, some, List, [], ◌∷◌, arith, ◌==◌,
  ltb, if◌then◌else◌,
}
use core_swift_crm.Http.{HeaderName, authorization, x_forwarded_for, Request, get}
use core_swift_crm.Text.{
  Text, codes, is_whitespace, text_eq, starts_with, strip_prefix, contains_char,
}
use core_swift_crm.Text.Split.{last_part}
use core_swift_crm.Text.Trim.{trim}
use core_swift_crm.RateLimiter.{
  is_rate_limited_surface, has_bearer_credential, extract_client_ip, RateLimiterState, Env,
  api_rate_limit_middleware, password_rate_limit_middleware,
}
use core_swift_crm.RateLimiter.Laws.{IsFrom, Budget, api_passes, password_passes, api_passes-le}

-- Addresses are texts of one digit; "1" is this machine.
abbrev parse_digit : Text → Option ℕ
parse_digit (d ∷ []) = some d
parse_digit _ = none

abbrev spend : ℕ → ℕ → Bool × ℕ
spend store ip = if ltb 0 store then (true, store - 1) else (false, store)

abbrev env : Env ℕ ℕ
env = record {
  parse_ip = parse_digit;
  localhost = b'1';
  is_loopback = λ ip. ip == b'1';
  check_key = spend;
}

budget : Budget env
budget = record {
  left = λ store ip. store;
  spends = λ store ip h. ground arith;
  keeps = λ store ip h. ground arith;
}

abbrev headers : Option Text → Text → HeaderName → Option Text
headers auth hops authorization = auth
headers auth hops x_forwarded_for = some hops
headers auth hops _ = none

abbrev ask : Option Text → Request
ask auth = record {
  method = get;
  path = codes "/api/contacts";
  header = headers auth (codes "9, 8");
  has_header = λ _. false;
}

abbrev burst : List Request
burst = ask none ∷ ask (some (codes "Bearer t")) ∷ ask none ∷ ask none ∷ []

abbrev start : RateLimiterState ℕ
start = record { auth_limiter = 1; api_limiter = 2; password_limiter = 1; console_limiter = 1 }

run : Unit {0}
unfolding api_passes password_passes api_rate_limit_middleware password_rate_limit_middleware
    extract_client_ip is_rate_limited_surface has_bearer_credential last_part trim is_whitespace
    text_eq starts_with strip_prefix contains_char
run = tt

burst_passes : (api_passes env start burst ≡ 3) × (password_passes env start burst ≡ 1)
unfolding run
burst_passes = (refl, refl)

surface :
    (is_rate_limited_surface (codes "/api/bookings/internal/calendars") ≡ true)
    × (is_rate_limited_surface (codes "/inbound/v2/a/b") ≡ false)
    × (is_rate_limited_surface (codes "/index.html") ≡ false)
unfolding run
surface = (refl, refl, refl)

vouched : (auth : Option Text) → IsFrom env.parse_ip b'8' (ask auth)
unfolding run
vouched auth = inr (refl, (codes "9", (codes " 8", refl, refl, refl)))

api_passes-le_example : api_passes env start burst ≤ 3
unfolding run budget
api_passes-le_example =
    api_passes-le env budget b'8' refl start burst
      (vouched none, (vouched (some (codes "Bearer t")), (vouched none, (vouched none, tt))))
