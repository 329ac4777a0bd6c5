-- ===== src/Load/Order.antt =====
-- sort_areas_by_offset of lib/fru_load.c, on the array of five.
pub mod Slots
pub mod Sort
use frugen.Common.{ℕ, zero, suc, ◌+◌, ◌-◌, true, false, List, ltb, get_elem?}
use frugen.Errno.{Eff, ◌>>=◌, pure, deref}
use frugen.Area.{put}

-- struct area_order_s
pub record AreaOrder : Type 0 where
  pub type_ : ℕ
  pub offset : ℕ

-- `for (old = newpos; old > pos2; --old) area_order[old] = area_order[old - 1]`, with the rounds
-- left.
unfoldable pub move_right : ℕ → ℕ → List AreaOrder → Eff (List AreaOrder)
move_right pos2 zero area_order = pure area_order
move_right pos2 (suc n) area_order = do
  x ← deref (get_elem? area_order (pos2 + n))
  moved ← put area_order (suc (pos2 + n)) x
  move_right pos2 n moved

-- The loop over `pos2`, which goes down from the argument less one to 0.
unfoldable pub place_left : AreaOrder → ℕ → ℕ → List AreaOrder → Eff (List AreaOrder)
place_left this_ao newpos zero area_order = pure area_order
place_left this_ao newpos (suc pos2) area_order = do
  x ← deref (get_elem? area_order pos2)
  elim (ltb this_ao.offset x.offset) [
    | true ↦ do
      moved ← move_right pos2 (newpos - pos2) area_order
      placed ← put moved pos2 this_ao
      place_left this_ao pos2 pos2 placed
    | false ↦ place_left this_ao newpos pos2 area_order
  ]

-- The loop over `pos`, with the rounds left.
unfoldable pub sort_from : ℕ → ℕ → List AreaOrder → Eff (List AreaOrder)
sort_from pos_ zero area_order = pure area_order
sort_from pos_ (suc n) area_order = do
  this_ao ← deref (get_elem? area_order pos_)
  placed ← place_left this_ao pos_ pos_ area_order
  sort_from (suc pos_) n placed

-- sort_areas_by_offset: FRU_MIN_AREA is 0 and FRU_MAX_AREA 4.
unfoldable pub sort_areas_by_offset : List AreaOrder → Eff (List AreaOrder)
sort_areas_by_offset area_order = sort_from 1 4 area_order
