-- ===== src/Models/Leads.antt =====
-- Calls that take the worlds of one kind to those of another, whether they answer or raise.
use tax_return_ai.Base.{◌⊎◌, inl, inr, ◌≡◌, refl, Exn, Result, ok, err, ◌>>=◌}
use tax_return_ai.Models.World.{World, Service}

pub Result-cases : {A : Type 0} (r : Result A) → ((a : A) × (r ≡ ok a)) ⊎ ((x : Exn) × (r ≡ err x))
Result-cases (ok a) = inl (a, refl)
Result-cases (err x) = inr (x, refl)

-- A call takes the worlds of one kind to those of another, whatever it answers.
abbrev pub Leads : {A : Type 0} → (World → Type 0) → (World → Type 0) → Service A → Type 0
Leads I J m = (w : World) → I w → J (m w).1

after-Leads :
    {A B : Type 0} (J K : World → Type 0) (k : A → Service B) (p : Result A × World)
    → ((w : World) → J w → K w)
    → ((a : A) → Leads J K (k a))
    → J p.1
    → K (elim p.0 as (λ x. Result B × World) [ ok a ↦ k a p.1 | err e ↦ (err e, p.1) ]).1
after-Leads J K k (ok a, v) sub hk i = hk a v i
after-Leads J K k (err e, v) sub hk i = sub v i

pub bind-Leads :
    {A B : Type 0} (I J K : World → Type 0) (m : Service A) (k : A → Service B)
    → ((w : World) → J w → K w)
    → Leads I J m
    → ((a : A) → Leads J K (k a))
    → Leads I K (m >>= k)
bind-Leads I J K m k sub hm hk w i = after-Leads J K k (m w) sub hk (hm w i)

pub bind-Keeps :
    {A B : Type 0} (I : World → Type 0) (m : Service A) (k : A → Service B)
    → Leads I I m
    → ((a : A) → Leads I I (k a))
    → Leads I I (m >>= k)
bind-Keeps I m k = bind-Leads I I I m k (λ w i. i)
