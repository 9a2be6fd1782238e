-- ===== src/Tests/RateLimit.antt =====
-- Three requests under a limit of two in a window of a minute.
use tax_return_ai.Base.{◌≤◌, [], ◌∷◌, arith, length}
use tax_return_ai.RateLimit.{Limit, clean}
use tax_return_ai.RateLimit.Window.{IsOrdered, last_time, serve, serve-admitted}

abbrev two_a_minute : Limit
two_a_minute = record { pattern = 1; max_requests = 2; window = 60000000 }

times_IsOrdered : IsOrdered 0 (100 ∷ 200 ∷ 300 ∷ [])
times_IsOrdered = ground arith

serve-admitted_example :
    length (
      clean
        (last_time 0 (100 ∷ 200 ∷ 300 ∷ []))
        two_a_minute.window
        (serve two_a_minute 9
          (100 ∷ 200 ∷ 300 ∷ [])
          (record { stored = []; admitted = [] })).admitted)
    ≤ two_a_minute.max_requests
serve-admitted_example = serve-admitted two_a_minute 9 0 (100 ∷ 200 ∷ 300 ∷ []) times_IsOrdered
