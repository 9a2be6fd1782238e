-- ===== src/RateLimit/Window.antt =====
-- How many requests the sliding window of app/middleware/rate_limit.py lets through.
use tax_return_ai.Base.{
  ℕ, ◌≡◌, ◌≤◌, ◌<◌, refl, sym, ap, ◌∙◌, subst, Bool, true, false, List, [], ◌∷◌, ◌++◌, leb,
  if◌then◌else◌, length, length-append, Result, ok, err, arith, Bool-cases, inl, inr,
}
use tax_return_ai.RateLimit.{Limit, Verdict, passed, limited, Hit, is_recent, clean, refused, admit}

-- The requests of one client under one limit, in order: each with its time. The first list holds
-- the hits that the middleware stores, the second all that it has ever let through.
pub record Log : Type 0 where
  pub stored : List Hit
  pub admitted : List Hit

abbrev pub let_through : Result Verdict → Bool
let_through (ok passed) = true
let_through (ok (limited n)) = false
let_through (err e) = false

unfoldable pub serve_one : Limit → ℕ → ℕ → Log → Log
serve_one l client_ip now log =
    let (verdict, hits) = admit l now client_ip log.stored in
    record {
      stored = hits;
      admitted =
          if let_through verdict then log.admitted ++ (now, client_ip) ∷ [] else log.admitted;
    }

unfoldable pub serve : Limit → ℕ → List ℕ → Log → Log
serve l client_ip [] log = log
serve l client_ip (now ∷ times) log = serve l client_ip times (serve_one l client_ip now log)

-- The times do not go back, from a time on.
abbrev pub IsOrdered : ℕ → List ℕ → Type 0
IsOrdered t [] = Unit
IsOrdered t (now ∷ times) = (t ≤ now) × IsOrdered now times

-- The last of the times.
abbrev pub last_time : ℕ → List ℕ → ℕ
last_time t [] = t
last_time t (now ∷ times) = last_time now times

clean-append :
    (now window : ℕ) (xs ys : List Hit)
    → clean now window (xs ++ ys) ≡ clean now window xs ++ clean now window ys
clean-append now window [] ys = refl
clean-append now window (x ∷ xs) ys = elim (Bool-cases (is_recent now window x)) [
  | inl e ↦ rw e (ap (λ zs. x ∷ zs) (clean-append now window xs ys))
  | inr e ↦ rw e (clean-append now window xs ys)
]

-- What is recent later was recent before.
clean-clean :
    (t now window : ℕ) (xs : List Hit)
    → t ≤ now
    → clean now window (clean t window xs) ≡ clean now window xs
clean-clean t now window [] l = refl
clean-clean t now window (x ∷ xs) l = ground (arith, l, clean-clean t now window xs l)

length-clean :
    (t now window : ℕ) (xs : List Hit)
    → t ≤ now
    → length (clean now window xs) ≤ length (clean t window xs)
length-clean t now window [] l = omega arith
length-clean t now window (x ∷ xs) l = ground (arith, l, length-clean t now window xs l)

-- What holds after each request: the hits stored are the recent ones of all that were let through,
-- and they are not too many.
record IsWithin (l : Limit) (t : ℕ) (log : Log) : Type 0 where
  stored_eq : clean t l.window log.stored ≡ clean t l.window log.admitted
  few : length (clean t l.window log.admitted) ≤ l.max_requests

clean_eq :
    (l : Limit) (t now : ℕ) (log : Log)
    → t ≤ now
    → IsWithin l t log
    → clean now l.window log.stored ≡ clean now l.window log.admitted
clean_eq l t now log le h =
    sym (clean-clean t now l.window log.stored le)
    ∙ ap (clean now l.window) h.stored_eq
    ∙ clean-clean t now l.window log.admitted le

refused-let_through :
    (now window : ℕ) (hits : List Hit) → let_through (refused now window hits) ≡ false
unfolding refused
refused-let_through now window [] = refl
refused-let_through now window (x ∷ xs) = refl

serve_one-full :
    (l : Limit) (client_ip now : ℕ) (log : Log)
    → leb l.max_requests (length (clean now l.window log.stored)) ≡ true
    → serve_one l client_ip now log
      ≡ record { stored = clean now l.window log.stored; admitted = log.admitted }
unfolding serve_one admit
serve_one-full l client_ip now log e =
    rw (e, refused-let_through now l.window (clean now l.window log.stored)) refl

serve_one-room :
    (l : Limit) (client_ip now : ℕ) (log : Log)
    → leb l.max_requests (length (clean now l.window log.stored)) ≡ false
    → serve_one l client_ip now log ≡ record {
      stored = clean now l.window log.stored ++ (now, client_ip) ∷ [];
      admitted = log.admitted ++ (now, client_ip) ∷ [];
    }
unfolding serve_one admit
serve_one-room l client_ip now log e = rw e refl

length-clean-one : (now window : ℕ) (hit : Hit) → length (clean now window (hit ∷ [])) ≤ 1
length-clean-one now window hit = ground arith

few-append :
    (l : Limit) (now : ℕ) (hit : Hit) (hits : List Hit)
    → length (clean now l.window hits) < l.max_requests
    → length (clean now l.window (hits ++ hit ∷ [])) ≤ l.max_requests
few-append l now hit hits lt = rw (clean-append now l.window hits (hit ∷ [])) (
    omega (
      arith,
      lt,
      length-append (clean now l.window hits) (clean now l.window (hit ∷ [])),
      length-clean-one now l.window hit,
    ))

serve_one-IsWithin :
    (l : Limit) (client_ip t now : ℕ) (log : Log)
    → t ≤ now
    → IsWithin l t log
    → IsWithin l now (serve_one l client_ip now log)
serve_one-IsWithin l client_ip t now log le h =
    let recent = clean now l.window log.stored in
    let same = clean_eq l t now log le h in
    let again = clean-clean now now l.window log.stored (omega arith) in
    elim (Bool-cases (leb l.max_requests (length recent))) [
      | inl e ↦ subst (IsWithin l now) (sym (serve_one-full l client_ip now log e)) (record {
        stored_eq = again ∙ same;
        few = omega (arith, length-clean t now l.window log.admitted le, h.few);
      })
      | inr e ↦ subst (IsWithin l now) (sym (serve_one-room l client_ip now log e)) (record {
        stored_eq =
            clean-append now l.window recent ((now, client_ip) ∷ [])
            ∙ ap (λ zs. zs ++ clean now l.window ((now, client_ip) ∷ [])) (again ∙ same)
            ∙ sym (clean-append now l.window log.admitted ((now, client_ip) ∷ []));
        few =
            few-append l now (now, client_ip) log.admitted
              (subst (λ zs. length zs < l.max_requests) same (ground (arith, e)));
      })
    ]

serve-IsWithin :
    (l : Limit) (client_ip t : ℕ) (times : List ℕ) (log : Log)
    → IsOrdered t times
    → IsWithin l t log
    → IsWithin l (last_time t times) (serve l client_ip times log)
unfolding serve
serve-IsWithin l client_ip t [] log o h = h
serve-IsWithin l client_ip t (now ∷ times) log o h =
    serve-IsWithin l client_ip now times (serve_one l client_ip now log) o.1
      (serve_one-IsWithin l client_ip t now log o.0 h)

-- For any requests of one client under one limit, at times that do not go back, the requests let
-- through within the window up to the last of those times are at most the limit.
pub serve-admitted :
    (l : Limit) (client_ip t : ℕ) (times : List ℕ)
    → IsOrdered t times
    → length (
        clean
          (last_time t times)
          l.window
          (serve l client_ip times (record { stored = []; admitted = [] })).admitted)
      ≤ l.max_requests
serve-admitted l client_ip t times o =
    (serve-IsWithin l client_ip t times (record { stored = []; admitted = [] }) o
      (record { stored_eq = refl; few = omega arith })).few
