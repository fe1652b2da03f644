-- ===== src/Federation/Cases.antt =====
-- How the answers of a query and of a call are taken apart.
use shig.Common.{◌≡◌, ◌⊎◌, inl, inr, refl}
use shig.Streams.{Query, found, not_found, failed, Result, ok, err, Fault}

pub Result-cases :
    {A : Type 0} (x : Result A) → ((a : A) × (x ≡ ok a)) ⊎ ((f : Fault) × (x ≡ err f))
Result-cases (ok a) = inl (a, refl)
Result-cases (err f) = inr (f, refl)

pub Query-cases :
    {A : Type 0} (x : Query A) → ((a : A) × (x ≡ found a)) ⊎ ((x ≡ not_found) ⊎ (x ≡ failed))
Query-cases (found a) = inl (a, refl)
Query-cases not_found = inr (inl refl)
Query-cases failed = inr (inr refl)
