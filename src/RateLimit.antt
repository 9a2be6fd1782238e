-- ===== src/RateLimit.antt =====
-- app/middleware/rate_limit.py: the sliding window. Patterns, paths and client addresses are
-- texts that are only handed on, so they are numbers; 0 is the address of an unknown client.
-- `re.match` is the argument `matches`, and the key `f"{pattern}:{client_ip}"` is `key_of`. Times
-- and windows are microseconds.
pub mod Window
use tax_return_ai.Base.{
  ℕ, ◌+◌, ◌-◌, Bool, true, false, ◌||◌, Option, none, some, List, [], ◌∷◌, ◌++◌, ltb, leb, ◌==◌,
  if◌then◌else◌, select, length, first, Result, ok, err, index_error, Action, ◌>>=◌,
}
use tax_return_ai.Base.Dict.{Dict, lookup, insert}

pub record Limit : Type 0 where
  pub pattern : ℕ
  pub max_requests : ℕ
  pub window : ℕ

-- A request is passed on, or answered with 429 and the time after which to try again.
pub data Verdict : Type 0 where
  passed : Verdict
  limited : ℕ → Verdict

-- The time and the client of a request that was let through.
abbrev pub Hit : Type 0
Hit = ℕ × ℕ

abbrev pub Requests : Type 0
Requests = Dict (List Hit)

-- The dict is a `defaultdict(list)`.
abbrev pub hits_of : ℕ → Requests → List Hit
hits_of key requests = elim (lookup key requests) [ none ↦ [] | some hits ↦ hits ]

-- `ts > window_start`, with the window moved to the other side
abbrev pub is_recent : ℕ → ℕ → Hit → Bool
is_recent now window hit = ltb now (hit.0 + window)

abbrev pub clean : ℕ → ℕ → List Hit → List Hit
clean now window hits = select (is_recent now window) hits

-- `oldest = hits[0][0]`, and the answer
refused : ℕ → ℕ → List Hit → Result Verdict
refused now window [] = err index_error
refused now window (hit ∷ hits) = ok (limited (hit.0 + window - now))

-- One matched limit, on the hits of its key.
unfoldable pub admit : Limit → ℕ → ℕ → List Hit → Result Verdict × List Hit
unfolding refused
admit l now client_ip hits =
    let recent = clean now l.window hits in
    if leb l.max_requests (length recent)
    then (refused now l.window recent, recent)
    else (ok passed, recent ++ (now, client_ip) ∷ [])

module _ (matches : ℕ → ℕ → Bool) (key_of : ℕ → ℕ → ℕ) where
  -- The loop over the limits, up to the first that matches.
  unfoldable pub check_limits : List Limit → ℕ → ℕ → ℕ → Requests → Result Verdict × Requests
  check_limits [] now path client_ip requests = (ok passed, requests)
  check_limits (l ∷ limits) now path client_ip requests =
      let rest = check_limits limits now path client_ip requests in
      let (verdict, hits) = admit l now client_ip (hits_of (key_of l.pattern client_ip) requests) in
      if matches l.pattern path
      then (verdict, insert (key_of l.pattern client_ip) hits requests)
      else rest

  unfoldable pub dispatch : ℕ → List Limit → ℕ → ℕ → ℕ → Requests → Result Verdict × Requests
  dispatch health limits now path client_ip requests =
      if path == health || client_ip == 0
      then (ok passed, requests)
      else check_limits limits now path client_ip requests
