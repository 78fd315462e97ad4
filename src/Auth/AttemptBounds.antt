-- ===== src/Auth/AttemptBounds.antt =====
-- How many attempts a window lets through (apps/api/src/auth/login-attempt.service.ts).
use lex_os.Prelude.{ℕ, List, [], ◌∷◌, String}
use lex_os.Auth.State.{State}
use lex_os.Auth.Attempts.{Attempts, AttemptScope, record_failure}

abbrev pub at_time : Attempts → ℕ → Attempts
at_time a t = record a { now = t }

-- The failures of one person from one place, at the given times.
unfoldable pub failures :
    Attempts → String → String → String → AttemptScope → List ℕ → State → State
failures a slug email ip scope [] s = s
failures a slug email ip scope (t ∷ ts) s =
    failures a slug email ip scope ts (record_failure (at_time a t) slug email ip scope s).1
