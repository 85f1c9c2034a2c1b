-- ===== src/Base/Faults.antt =====
-- What may happen to a request to a service: the environment's choice, one after the other.
use mathlib.Core.Path.{◌≡◌, refl}
use mathlib.Core.Logic.{◌⊎◌, inl, inr}
use mathlib.Core.List.{List, [], ◌∷◌}

-- `rejected`: the server did not run the command (no connection, or it refused it, as Redis refuses
-- writes without memory). `lost`: it ran, and the reply did not arrive.
pub data Fault : Type 0 where
  delivered rejected lost : Fault

pub Fault-cases : (f : Fault) → (f ≡ delivered) ⊎ ((f ≡ rejected) ⊎ (f ≡ lost))
Fault-cases delivered = inl refl
Fault-cases rejected = inr (inl refl)
Fault-cases lost = inr (inr refl)

-- Where the list ends, requests succeed.
abbrev pub next_fault : List Fault → Fault
next_fault [] = delivered
next_fault (f ∷ fs) = f

abbrev pub later_faults : List Fault → List Fault
later_faults [] = []
later_faults (f ∷ fs) = fs
