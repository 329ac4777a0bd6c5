-- ===== src/Area.antt =====
-- lib/fru_enable_area.c: which areas a FRU has, and their order.
pub mod Moves
pub mod Search
pub mod Order
pub mod Enable
pub mod Init
pub mod Disable
pub mod Move
mod Tests
use frugen.Common.{
  ℕ, zero, suc, ◌+◌, ◌-◌, Bool, true, false, not, ◌&&◌, ◌||◌, Option, none, some, List, [], ◌∷◌,
  ltb, leb, ◌==◌, if◌then◌else◌, get_elem?, set, length, pos, minus_one,
}
use frugen.Errno.{
  ErrorCode, FruErrno, Outcome, ok, fail, fault, Eff, ◌>>=◌, ◌>>◌, pure, undefined, deref, guard,
  non_null, seterr, fail_with, clearerr, fenone, feinit, feareabadtype, feapos, feaenabled,
  ferr_loc_caller, ferr_loc_general,
}
use frugen.Fru.{Fru, is_valid_area, fru_mr}

-- fru_area_position_t: the special positions, and behind an area.
pub data Position : Type 0 where
  apos_last apos_first apos_auto : Position
  after_area : ℕ → Position

-- FRU_APOS_MAX
abbrev pub apos_max : ℕ
apos_max = 4

-- FRU_IS_APOS_VALID
abbrev pub is_valid_position : Position → Bool
is_valid_position (after_area x) = leb x apos_max
is_valid_position _ = true

-- The tests `after == FRU_APOS_FIRST`, `after == FRU_APOS_AUTO` and `pos_atype == after_atype`.
abbrev pub is_first : Position → Bool
is_first apos_first = true
is_first _ = false

abbrev pub is_auto : Position → Bool
is_auto apos_auto = true
is_auto _ = false

abbrev pub is_behind : Position → ℕ → Bool
is_behind (after_area x) pos_atype = pos_atype == x
is_behind _ pos_atype = false

-- The loop that finds the area's old position, from index `i` on.
unfoldable pub find_position : ℕ → ℕ → List ℕ → Option ℕ
find_position atype i [] = none
find_position atype i (x ∷ order) = elim (x == atype) [
  | true ↦ some i
  | false ↦ find_position atype (suc i) order
]

-- What ends the loop for the new position, at a slot whose area is `pos_atype`.
unfoldable pub stops : Position → Bool → ℕ → Bool
stops after here pos_atype = (is_first after && not here) || (here && is_behind after pos_atype)

abbrev pub is_none {ℓ} : {A : Type ℓ} → Option A → Bool
is_none none = true
is_none (some a) = false

-- Whether the automatic position moves to this slot.
unfoldable pub improves : ℕ → Bool → ℕ → Option ℕ → ℕ → Bool
improves atype here pos_atype auto last =
    (not here || leb pos_atype atype)
    && ((here && ltb last pos_atype) || (not here && is_none auto))

-- The loop for the new position, at index `n` - 1 and downwards: `auto` is `auto_new_pos` and
-- `last` is `last_pos_atype`. It returns `new_pos` and `auto_new_pos`, where none is -1.
unfoldable pub search_position :
    List Bool → List ℕ → Position → ℕ → ℕ → Option ℕ → ℕ → Eff (Option ℕ × Option ℕ)
search_position present order after atype zero auto last = pure (none, auto)
search_position present order after atype (suc i) auto last = do
  pos_atype ← deref (get_elem? order i)
  here ← deref (get_elem? present pos_atype)
  elim (stops after here pos_atype) [
    | true ↦ pure (some i, auto)
    | false ↦ elim (improves atype here pos_atype auto last) [
      | true ↦ search_position present order after atype i (some i) pos_atype
      | false ↦ search_position present order after atype i auto last
    ]
  ]

-- What the code makes of the two results of the loop.
unfoldable pub pick_position : Position → Option ℕ × Option ℕ → Option ℕ
pick_position after (new_pos, none) = new_pos
pick_position after (new_pos, some auto) = if is_auto after then some auto else new_pos

unfoldable pub new_position : List Bool → List ℕ → Position → ℕ → Eff (Option ℕ)
new_position present order apos_last atype = pure (some apos_max)
new_position present order after atype = do
  found ← search_position present order after atype (suc apos_max) none 0
  pure (pick_position after found)

-- `for (i = old_pos; i < new_pos; i++) order[i] = order[i + 1]`, with the rounds left.
unfoldable pub shift_left : ℕ → ℕ → List ℕ → Eff (List ℕ)
shift_left zero i order = pure order
shift_left (suc n) i order = do
  x ← deref (get_elem? order (suc i))
  shift_left n (suc i) (set order i x)

-- `order[p] = atype`
unfoldable pub put {ℓ} : {A : Type ℓ} → List A → ℕ → A → Eff (List A)
put xs i x = if ltb i (length xs) then pure (set xs i x) else undefined

unfoldable pub place : List ℕ → ℕ → Option ℕ → ℕ → Eff (List ℕ)
place order old_pos none atype = undefined
place order old_pos (some new_pos) atype = do
  shifted ← shift_left (new_pos - old_pos) old_pos order
  put shifted new_pos atype

-- fru_enable_area behind its checks.
unfoldable pub enable : Fru → ℕ → Position → Eff Fru
enable fru atype after = elim (find_position atype 0 fru.order) [
  | none ↦ fail_with feinit ferr_loc_general minus_one
  | some old_pos ↦ do
    new_pos ← new_position fru.present fru.order after atype
    order' ← place fru.order old_pos new_pos atype
    present' ← put fru.present atype true
    pure (record fru { order = order'; present = present' })
]

-- fru_enable_area
unfoldable pub enable_area : Option Fru → ℕ → Position → Eff Fru
enable_area ptr atype after = do
  fru ← non_null ptr ferr_loc_caller
  guard (is_valid_area atype) feareabadtype ferr_loc_caller (pos atype)
  guard (is_valid_position after) feapos ferr_loc_caller minus_one
  here ← deref (get_elem? fru.present atype)
  guard (not here) feaenabled atype minus_one
  enable fru atype after

-- The loop of fru_disable_area for the new position, with `i`, which is `new_pos`, and the order
-- from there on.
unfoldable pub search_disabled : List Bool → ℕ → ℕ → List ℕ → Eff ℕ
search_disabled present atype i [] = pure i
search_disabled present atype i (pos_atype ∷ order) = do
  here ← deref (get_elem? present pos_atype)
  elim (here || ltb atype pos_atype) [
    | true ↦ pure i
    | false ↦ search_disabled present atype (suc i) order
  ]

-- `for (i = old_pos; i > new_pos; i--) order[i] = order[i - 1]`, with the rounds left.
unfoldable pub shift_right : ℕ → ℕ → List ℕ → Eff (List ℕ)
shift_right zero i order = pure order
shift_right (suc n) i order = do
  x ← deref (get_elem? order (i - 1))
  shift_right n (i - 1) (set order i x)

-- fru_disable_area behind its checks.
unfoldable pub disable : Fru → ℕ → Eff Fru
disable fru atype = elim (find_position atype 0 fru.order) [
  | none ↦ fail_with feinit ferr_loc_caller minus_one
  | some old_pos ↦ do
    new_pos ← search_disabled fru.present atype 0 fru.order
    shifted ← shift_right (old_pos - new_pos) old_pos fru.order
    order' ← put shifted new_pos atype
    present' ← put fru.present atype false
    pure (record fru { order = order'; present = present' })
]

-- fru_disable_area: an area that is not present is a success that leaves an error behind.
unfoldable pub disable_area : Option Fru → ℕ → Eff Fru
disable_area ptr atype = do
  fru ← non_null ptr ferr_loc_caller
  guard (is_valid_area atype) feareabadtype ferr_loc_caller (pos atype)
  here ← deref (get_elem? fru.present atype)
  elim here [ true ↦ disable fru atype | false ↦ do seterr feaenabled atype minus_one; pure fru ]

abbrev pub is_fenone : ErrorCode → Bool
is_fenone fenone = true
is_fenone _ = false

-- The second half of fru_move_area. A failure of fru_enable_area leaves the area disabled, so the
-- result has the FRU beside what the call returns.
abbrev pub returned : Fru → Outcome Fru → Outcome (Fru × Bool)
returned fru (ok fru' e) = ok (fru', true) e
returned fru (fail e) = ok (fru, false) e
returned fru fault = fault

unfoldable pub enable_again : Fru → ℕ → Position → Eff (Fru × Bool)
enable_again fru area after e =
    if is_fenone e.code
    then returned fru (enable_area (some fru) area after e)
    else ok (fru, false) e

-- fru_move_area
unfoldable pub move_area : Option Fru → ℕ → Position → Eff (Fru × Bool)
move_area ptr area after = do
  clearerr
  disabled ← disable_area ptr area
  enable_again disabled area after
