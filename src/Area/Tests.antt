-- ===== src/Area/Tests.antt =====
-- Runs of the area operations, and the witnesses of their theorems.
use frugen.Common.{false, minus_one, arith, ◌≡◌, refl, some, [], ◌∷◌, true}
use frugen.Errno.{
  with_error, fenone, ferr_loc_general, ok, fault, fru_errno_init, result, ◌>>=◌, pure,
}
use frugen.Fru.{Fru, default_fru}
use frugen.Area.Order.{WellFormed, Flag}
use frugen.Area.Init.{default_WellFormed}
use frugen.Area.Move.{disable_area-WellFormed, move_area-WellFormed}
use frugen.Area.Enable.{enable_area-WellFormed}
use frugen.Area.{
  disable_area, move_area, enable_area, enable, find_position, new_position, search_position, stops,
  improves, pick_position, place, shift_left, put, apos_auto, apos_first, after_area,
}

-- An area behind one that is not present writes below the array.
behind_absent : enable_area (some default_fru) 1 (after_area 2) fru_errno_init ≡ fault
unfolding enable_area enable find_position new_position search_position stops improves pick_position
    place shift_left put
behind_absent = refl

-- The chassis area goes before the internal use area.
internal_ignored :
    result (
      (enable_area (some default_fru) 0 apos_auto >>= λ fru.
      enable_area (some fru) 1 apos_auto >>= λ fru. pure fru.order)
        fru_errno_init)
    ≡ some (2 ∷ 3 ∷ 4 ∷ 1 ∷ 0 ∷ [])
unfolding enable_area enable find_position new_position search_position stops improves pick_position
    place shift_left put
internal_ignored = refl

enable_area-WellFormed_example :
    (fru' : Fru) × (enable_area (some default_fru) 2 apos_first fru_errno_init
      ≡ ok fru' fru_errno_init)
    × WellFormed fru'
    × Flag fru'.present true 2
enable_area-WellFormed_example =
    enable_area-WellFormed default_fru 2 apos_first fru_errno_init default_WellFormed (omega arith)
      refl tt

-- A FRU with a board area.
abbrev board_only : Fru
board_only = record default_fru {
  present = false ∷ false ∷ true ∷ false ∷ false ∷ [];
  order = 0 ∷ 1 ∷ 3 ∷ 4 ∷ 2 ∷ [];
}

board_only-WellFormed : WellFormed board_only
board_only-WellFormed = record {
  present_size = refl;
  order_size = refl;
  once = λ a h. ground arith;
  off = 0 ∷ 1 ∷ 3 ∷ 4 ∷ [];
  on = 2 ∷ [];
  grouped = refl;
  all_off = (refl, (refl, (refl, (refl, tt))));
  all_on = (refl, tt);
}

disable_area-WellFormed_example :
    (fru' : Fru) × (disable_area (some board_only) 2 fru_errno_init ≡ ok fru' fru_errno_init)
    × WellFormed fru'
    × Flag fru'.present false 2
disable_area-WellFormed_example =
    disable_area-WellFormed board_only 2 fru_errno_init board_only-WellFormed (omega arith) refl

move_area-WellFormed_example :
    (fru' : Fru) × (move_area (some board_only) 2 apos_first fru_errno_init
      ≡ ok (fru', true) (with_error fenone ferr_loc_general minus_one fru_errno_init))
    × WellFormed fru'
    × Flag fru'.present true 2
move_area-WellFormed_example =
    move_area-WellFormed board_only 2 apos_first fru_errno_init board_only-WellFormed (omega arith)
      refl (λ f. tt)
