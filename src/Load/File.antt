-- ===== src/Load/File.antt =====
-- fru_loadbuffer and fru_loadfile of lib/fru_load.c.
use frugen.Common.{
  ℕ, ◌*◌, leb, ◌||◌, Bool, true, false, Option, some, none, List, [], ◌∷◌, Bytes, ◌==◌,
  if◌then◌else◌, minus_one, ℤ,
}
use frugen.Errno.{
  Eff, ◌>>=◌, ◌>>◌, pure, fail, non_null, fail_with, fail_errno, guard, efault, fegeneric, fe2big,
  ferr_loc_general,
}
use frugen.Fru.{Fru, zeroed_fru, fru_internal_use, fru_mr}
use frugen.Area.{put}
use frugen.Save.{bytes_of}
use frugen.Load.{Flags, find_fru_header, area_pointer, get_area_limit, all_areas}
use frugen.Load.Area.{decode_iu_area, decode_info_area}
use frugen.Load.Record.{decode_mr_area}
use frugen.Load.Order.{AreaOrder, sort_areas_by_offset}

-- The table of decoders.
unfoldable pub decode_area : Bytes → ℤ → ℕ → ℕ → ℕ → Flags → Fru → Eff Fru
decode_area image datetime_base atype offset limit flags fru =
    if atype == fru_internal_use
    then decode_iu_area image offset limit flags fru
    else if atype == fru_mr
    then decode_mr_area image offset limit flags fru
    else decode_info_area image datetime_base atype offset limit flags fru

-- An area that the file's header points to. A limit of 0 stands for an error that is set.
unfoldable pub load_area : Bytes → ℤ → ℕ → ℕ → Flags → Fru → Eff Fru
load_area image datetime_base atype offset flags fru = do
  area_limit ← get_area_limit image atype
  elim (area_limit == 0) [
    | true ↦ λ e. fail e
    | false ↦ do
      decoded ← decode_area image datetime_base atype offset area_limit flags fru
      present' ← put decoded.present atype true
      pure (record decoded { present = present' })
  ]

-- The loop over the types of areas, which also gives the array that is to be sorted.
unfoldable pub load_areas : Bytes → ℤ → List ℕ → Flags → Fru → Eff (Fru × List AreaOrder)
load_areas image datetime_base [] flags fru = pure (fru, [])
load_areas image datetime_base (atype ∷ rest) flags fru = do
  area_ptr ← area_pointer image atype
  let area_offset = bytes_of area_ptr
  loaded ← elim (area_offset == 0) [
    | true ↦ pure fru
    | false ↦ load_area image datetime_base atype area_offset flags fru
  ]
  (fru', area_order) ← load_areas image datetime_base rest flags loaded
  pure (fru', record { type_ = atype; offset = area_offset } ∷ area_order)

abbrev pub types_of : List AreaOrder → List ℕ
types_of [] = []
types_of (area ∷ rest) = area.type_ ∷ types_of rest

-- The structure that is filled in: the caller's, or a new one.
abbrev pub target : Bool → Option Fru → Eff Fru
target allocated (some fru) = pure fru
target true none = pure zeroed_fru
target false none = fail_with fegeneric ferr_loc_general minus_one

-- fru_loadbuffer. After a failure the caller's structure may be filled in in part, which the
-- model leaves out.
unfoldable pub loadbuffer : Bool → ℤ → Option Fru → Option Bytes → Flags → Eff Fru
loadbuffer allocated datetime_base init_fru buf flags = do
  image ← non_null buf ferr_loc_general
  find_fru_header image flags
  fru ← target allocated init_fru
  (loaded, area_order) ← load_areas image datetime_base all_areas flags fru
  sorted ← sort_areas_by_offset area_order
  pure (record loaded { order = types_of sorted })

-- FRU__MAX_FILE_SIZE
abbrev pub max_file_size : ℕ
max_file_size = 64 * 1024

-- What `open`, `fstat` and `mmap` give for a file.
pub data Fetched : Type 0 where
  not_opened : Fetched
  no_status : Fetched
  status : (size : ℕ) → (mapped : Option Bytes) → Fetched

-- fru_loadfile, with none for a NULL name: `ign_big` is the flag FRU_IGNBIG.
unfoldable pub fetch : Bool → Fetched → Eff Bytes
fetch ign_big not_opened = fail_with fegeneric ferr_loc_general minus_one
fetch ign_big no_status = fail_with fegeneric ferr_loc_general minus_one
fetch ign_big (status size mapped) = do
  guard (leb size max_file_size || ign_big) fe2big ferr_loc_general minus_one
  elim mapped [ none ↦ fail_with fegeneric ferr_loc_general minus_one | some image ↦ pure image ]

unfoldable pub loadfile : Bool → ℤ → Option Fru → Option Fetched → Bool → Flags → Eff Fru
loadfile allocated datetime_base init_fru none ign_big flags =
    fail_errno fegeneric ferr_loc_general minus_one efault
loadfile allocated datetime_base init_fru (some file) ign_big flags = do
  image ← fetch ign_big file
  loadbuffer allocated datetime_base init_fru (some image) flags
