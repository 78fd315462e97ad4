-- ===== src/Auth/Attempts.antt =====
-- The counters of attempts: apps/api/src/auth/login-attempt.service.ts. Redis is a service: it is
-- up or down for a request, and it forgets a key at the time that it expires.
use lex_os.Prelude.{
  ℕ, ◌+◌, ◌*◌, Bool, not, Option, none, some, String, text_eq, ltb, leb, if◌then◌else◌,
}
use Prim.Native.String
use lex_os.Auth.State.{Counter, State, Act, ◌>>=◌, ◌>>◌, query, modify, refuse_if}

pub data AttemptScope : Type 0 where
  login reset totp : AttemptScope

-- What the attempts of a request go by: the limit and the window of the configuration, whether
-- Redis answers, the fingerprint (SHA-256) and the time.
pub record Attempts : Type 0 where
  pub limit : ℕ
  pub window_seconds : ℕ
  pub redis_is_up : Bool
  pub fingerprint : String → String
  pub now : ℕ

abbrev pub reset_request_limit : ℕ
reset_request_limit = 3

abbrev pub totp_attempt_limit : ℕ
totp_attempt_limit = 5

unfoldable pub limit_for : Attempts → AttemptScope → ℕ
limit_for a login = a.limit
limit_for a reset = reset_request_limit
limit_for a totp = totp_attempt_limit

unfoldable pub window_for : Attempts → AttemptScope → ℕ
window_for a login = a.window_seconds
window_for a reset = 3600
window_for a totp = 600

abbrev scope_name : AttemptScope → String
scope_name login = "login"
scope_name reset = "reset"
scope_name totp = "totp"

abbrev joined : String → String → String
joined s t = String.◌++◌ s t

-- The separator between the parts is the character 0.
unfoldable pub key : Attempts → String → String → String → AttemptScope → String
key a organization_slug email client_ip scope = joined "auth:" (
    joined (scope_name scope) (
      joined ":" (
        a.fingerprint
          (joined organization_slug (joined "\0" (joined email (joined "\0" client_ip)))))))

-- A key that has not expired.
unfoldable pub live_counter : ℕ → Option Counter → Option Counter
live_counter now none = none
live_counter now (some c) = if ltb now c.expires_at then some c else none

-- `Number(await client.get(key) ?? 0)`.
unfoldable pub count_at : ℕ → String → State → ℕ
unfolding live_counter
count_at now k s = elim (live_counter now (s.counters k)) [ none ↦ 0 | some c ↦ c.count ]

unfoldable pub put_counter : String → Option Counter → State → State
put_counter k c s = record s { counters = λ j. if text_eq j k then c else s.counters j }

-- `incrementScript`: a first count starts the window.
unfoldable pub incremented : ℕ → ℕ → Option Counter → Counter
incremented now window_seconds none = record { count = 1; expires_at = now + window_seconds * 1000 }
incremented now window_seconds (some c) = record c { count = c.count + 1 }

-- `#redisOperation`: Redis that does not answer closes the door.
unfoldable pub redis_operation : Attempts → Act (Unit {0})
redis_operation a = refuse_if (not a.redis_is_up) "AUTH_PROTECTION_UNAVAILABLE"

unfoldable pub assert_allowed : Attempts → String → String → String → AttemptScope → Act (Unit {0})
unfolding redis_operation
assert_allowed a organization_slug email client_ip scope = do
  redis_operation a
  count ← query (count_at a.now (key a organization_slug email client_ip scope))
  refuse_if (leb (limit_for a scope) count) "AUTH_RATE_LIMITED"

unfoldable pub count_failure : Attempts → String → AttemptScope → State → State
unfolding incremented put_counter live_counter window_for
count_failure a k scope s =
    put_counter k
      (some (incremented a.now (window_for a scope) (live_counter a.now (s.counters k)))) s

unfoldable pub record_failure : Attempts → String → String → String → AttemptScope → Act (Unit {0})
unfolding redis_operation
record_failure a organization_slug email client_ip scope = do
  redis_operation a
  modify (count_failure a (key a organization_slug email client_ip scope) scope)

unfoldable pub clear : Attempts → String → String → String → AttemptScope → Act (Unit {0})
unfolding redis_operation
clear a organization_slug email client_ip scope = do
  redis_operation a
  modify (put_counter (key a organization_slug email client_ip scope) none)
