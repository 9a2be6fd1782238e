-- ===== src/Config.antt =====
-- app/config.py: the settings that the modelled services read, and the session timeouts.
use tax_return_ai.Base.{ℕ, ◌*◌, ◌≤◌, max, String, Option, none, some, arith}

pub record Settings : Type 0 where
  pub ai_provider : String
  pub max_upload_size_mb : ℕ
  pub session_idle_timeout_minutes : ℕ
  pub session_absolute_timeout_hours : ℕ
  pub session_idle_timeout_seconds : Option ℕ
  pub session_absolute_timeout_seconds : Option ℕ

-- `timedelta(seconds=…)`, in microseconds
abbrev pub timedelta : ℕ → ℕ
timedelta seconds = seconds * 1000000

-- A negative setting has the effect of zero, as the maximum is taken.
idle_seconds : Option ℕ → ℕ → ℕ
idle_seconds (some seconds) minutes = max 60 seconds
idle_seconds none minutes = max 60 (minutes * 60)

unfoldable pub effective_session_idle_timeout_seconds : Settings → ℕ
unfolding idle_seconds
effective_session_idle_timeout_seconds s =
    idle_seconds s.session_idle_timeout_seconds s.session_idle_timeout_minutes

absolute_seconds : Option ℕ → ℕ → ℕ
absolute_seconds (some seconds) hours = max 300 seconds
absolute_seconds none hours = max 300 (hours * 3600)

unfoldable pub effective_session_absolute_timeout_seconds : Settings → ℕ
unfolding absolute_seconds
effective_session_absolute_timeout_seconds s =
    absolute_seconds s.session_absolute_timeout_seconds s.session_absolute_timeout_hours

pub effective_session_idle_timeout_seconds-min :
    (s : Settings) → 60 ≤ effective_session_idle_timeout_seconds s
unfolding effective_session_idle_timeout_seconds
effective_session_idle_timeout_seconds-min s = ground arith

pub effective_session_absolute_timeout_seconds-min :
    (s : Settings) → 300 ≤ effective_session_absolute_timeout_seconds s
unfolding effective_session_absolute_timeout_seconds
effective_session_absolute_timeout_seconds-min s = ground arith
