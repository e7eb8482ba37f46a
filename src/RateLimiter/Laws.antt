-- ===== src/RateLimiter/Laws.antt =====
-- The key of a request cannot be chosen by its sender, and a request is charged once at most.
use core_swift_crm.Prelude.{
  ℕ, ◌≡◌, ap, true, false, Option, none, some, List, [], ◌∷◌, ◌++◌, arith, if◌then◌else◌, All, ◌+◌,
  ◌≤◌, ◌⊎◌, inl, inr,
}
use core_swift_crm.Http.{Request, Verdict, run_next, refuse, x_real_ip, x_forwarded_for}
use core_swift_crm.Text.{Text}
use core_swift_crm.Text.Split.{HasNo, last_part-append}
use core_swift_crm.Text.Trim.{trim}
use core_swift_crm.RateLimiter.{
  is_rate_limited_surface, extract_client_ip, RateLimiterState, Env, verdict,
  password_rate_limit_middleware, api_rate_limit_middleware,
}

-- Behind a proxy that appends the address it saw, the last hop is the client, whatever the sender
-- put in front of it.
pub extract_client_ip-forwarded :
    {Ip : Type 0} (parse_ip : Text → Option Ip) (localhost ip : Ip) (req : Request)
    (forged hop : Text)
    → req.header x_real_ip ≡ none
    → req.header x_forwarded_for ≡ some (forged ++ b',' ∷ hop)
    → HasNo b',' hop
    → parse_ip (trim hop) ≡ some ip
    → extract_client_ip parse_ip localhost req ≡ ip
unfolding extract_client_ip
extract_client_ip-forwarded parse_ip localhost ip req forged hop unset given plain parsed = ground (
  arith,
  last_part-append b',' forged hop plain,
  ap parse_ip (ap trim (last_part-append b',' forged hop plain)),
)

-- The proxy's own header wins, whatever has been forwarded.
extract_client_ip-real :
    {Ip : Type 0} (parse_ip : Text → Option Ip) (localhost ip : Ip) (req : Request) (real : Text)
    → req.header x_real_ip ≡ some real
    → parse_ip (trim real) ≡ some ip
    → extract_client_ip parse_ip localhost req ≡ ip
unfolding extract_client_ip
extract_client_ip-real parse_ip localhost ip req real set parsed = ground (arith, set, parsed)

-- The proxy vouches for the address: in the header that it sets, or, without that one, in the hop
-- that it appends to what the sender claims to have been forwarded.
abbrev pub IsFrom : {Ip : Type 0} → (Text → Option Ip) → Ip → Request → Type 0
IsFrom parse_ip ip req =
    ((real : Text) × (req.header x_real_ip ≡ some real) × (parse_ip (trim real) ≡ some ip))
    ⊎ ((req.header x_real_ip ≡ none)
        × ((claimed : Text) × ((hop : Text) × (req.header x_forwarded_for
                ≡ some (claimed ++ b',' ∷ hop))
              × HasNo b',' hop
              × (parse_ip (trim hop) ≡ some ip))))

extract_client_ip-IsFrom :
    {Ip : Type 0} (parse_ip : Text → Option Ip) (localhost ip : Ip) (req : Request)
    → IsFrom parse_ip ip req
    → extract_client_ip parse_ip localhost req ≡ ip
extract_client_ip-IsFrom parse_ip localhost ip req (inl (real, set, parsed)) =
    extract_client_ip-real parse_ip localhost ip req real set parsed
extract_client_ip-IsFrom parse_ip localhost ip req
      (inr (unset, (claimed, (hop, here, plain, parsed)))) =
    extract_client_ip-forwarded parse_ip localhost ip req claimed hop unset here plain parsed

-- What the limiters of `governor` promise within one window, in which nothing is replenished: a
-- call for an address that is let through uses up one unit of what that address has left, and no
-- call gives any back.
pub record Budget {Ip Store : Type 0} (env : Env Ip Store) : Type 0 where
  pub left : Store → Ip → ℕ
  pub spends :
      (store : Store) (ip : Ip)
      → (env.check_key store ip).0 ≡ true
      → left (env.check_key store ip).1 ip + 1 ≤ left store ip
  pub keeps :
      (store : Store) (ip : Ip)
      → (env.check_key store ip).0 ≡ false
      → left (env.check_key store ip).1 ip ≤ left store ip

abbrev pub ran : Verdict → ℕ
ran run_next = 1
ran (refuse status message) = 0

module _ {Ip Store : Type 0} (env : Env Ip Store) where
  abbrev pub client_ip : Request → Ip
  client_ip req = extract_client_ip env.parse_ip env.localhost req

  -- How many of the requests on the limited surface are let through, one after the other.
  unfoldable pub api_passes : RateLimiterState Store → List Request → ℕ
  api_passes state [] = 0
  api_passes state (req ∷ reqs) =
      (if is_rate_limited_surface req.path
        then ran (api_rate_limit_middleware env state req).0
        else 0)
      + api_passes (api_rate_limit_middleware env state req).1 reqs

  unfoldable pub password_passes : RateLimiterState Store → List Request → ℕ
  password_passes state [] = 0
  password_passes state (req ∷ reqs) =
      ran (password_rate_limit_middleware env state req).0
      + password_passes (password_rate_limit_middleware env state req).1 reqs

  module _ (budget : Budget env) (ip : Ip) (outside : env.is_loopback ip ≡ false) where
    api_left : RateLimiterState Store → ℕ
    api_left state = budget.left state.api_limiter ip + budget.left state.console_limiter ip

    charge-le :
        (store : Store)
        → ran (verdict (env.check_key store ip).0) + budget.left (env.check_key store ip).1 ip
          ≤ budget.left store ip
    charge-le store = ground (arith, budget.spends store ip, budget.keeps store ip)

    api_step :
        (state : RateLimiterState Store) (req : Request)
        → client_ip req ≡ ip
        → (if is_rate_limited_surface req.path
              then ran (api_rate_limit_middleware env state req).0
              else 0)
            + api_left (api_rate_limit_middleware env state req).1
          ≤ api_left state
    unfolding api_rate_limit_middleware api_left
    api_step state req same =
        rw same
          (ground (arith, charge-le state.api_limiter, charge-le state.console_limiter, outside))

    -- If the proxy vouches for one address outside the machine on each of the requests, they pass the
    -- general limiter at most as often as that address's two budgets together allow, whatever paths
    -- and credentials they carry and whatever hops the sender claims in front of the proxy's own.
    pub api_passes-le :
        (state : RateLimiterState Store) (reqs : List Request)
        → All (IsFrom env.parse_ip ip) reqs
        → api_passes state reqs
          ≤ budget.left state.api_limiter ip + budget.left state.console_limiter ip
    unfolding api_passes api_left
    api_passes-le state [] vouched = omega arith
    api_passes-le state (req ∷ reqs) (here, there) = omega (
      arith,
      api_step state req (extract_client_ip-IsFrom env.parse_ip env.localhost ip req here),
      api_passes-le (api_rate_limit_middleware env state req).1 reqs there,
    )

    password_step :
        (state : RateLimiterState Store) (req : Request)
        → client_ip req ≡ ip
        → ran (password_rate_limit_middleware env state req).0
            + budget.left (password_rate_limit_middleware env state req).1.password_limiter ip
          ≤ budget.left state.password_limiter ip
    unfolding password_rate_limit_middleware
    password_step state req same =
        rw same (ground (arith, charge-le state.password_limiter, outside))

    -- One address outside the machine gets through to the recovery routes, which send mail, at most
    -- as often as its budget allows.
    pub password_passes-le :
        (state : RateLimiterState Store) (reqs : List Request)
        → All (λ req. client_ip req ≡ ip) reqs
        → password_passes state reqs ≤ budget.left state.password_limiter ip
    unfolding password_passes
    password_passes-le state [] same = omega arith
    password_passes-le state (req ∷ reqs) (here, there) = omega (
      arith,
      password_step state req here,
      password_passes-le (password_rate_limit_middleware env state req).1 reqs there,
    )
