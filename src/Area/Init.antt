-- ===== src/Area/Init.antt =====
-- fru_init and the order of the areas.
use frugen.Common.{◌≡◌, refl, [], ◌∷◌, arith, Option, none, some, Bool, true, false}
use mathlib.Core.Path.{subst}
use frugen.Errno.{FruErrno, Outcome, ok, fail, fault}
use frugen.Fru.{Fru, default_fru, init}
use frugen.Area.Order.{WellFormed}

pub default_WellFormed : WellFormed default_fru
default_WellFormed = record {
  present_size = refl;
  order_size = refl;
  once = λ a h. ground arith;
  off = 0 ∷ 1 ∷ 2 ∷ 3 ∷ 4 ∷ [];
  on = [];
  grouped = refl;
  all_off = (refl, (refl, (refl, (refl, (refl, tt)))));
  all_on = tt;
}

-- The FRU of a call that succeeds.
abbrev HoldsOf : (Fru → Type 0) → Outcome Fru → Type 0
HoldsOf P (ok fru e) = P fru
HoldsOf P (fail e) = Unit
HoldsOf P fault = Unit

init_holds :
    (ptr : Option Fru) (allocated : Bool) (e : FruErrno) → HoldsOf WellFormed (init ptr allocated e)
unfolding init
init_holds (some fru) allocated e = default_WellFormed
init_holds none true e = default_WellFormed
init_holds none false e = tt

-- Whenever fru_init succeeds, on a structure of the caller or on a new one, the area order that it
-- leaves is well-formed.
pub init-WellFormed :
    (ptr : Option Fru) (allocated : Bool) (fru : Fru) (e e' : FruErrno)
    → init ptr allocated e ≡ ok fru e'
    → WellFormed fru
init-WellFormed ptr allocated fru e e' done =
    subst (HoldsOf WellFormed) done (init_holds ptr allocated e)
