-- ===== src/Save/File.antt =====
-- `create_frufile` and `fru_savebuffer` of lib/fru_save.c.
use frugen.Common.{
  ℕ, ◌+◌, Bool, true, false, not, Option, some, none, List, [], ◌∷◌, Bytes, u8, leb, ◌==◌,
  if◌then◌else◌, get_or, ◌*◌, ◌/◌, get_elem?, minus_one,
}
use frugen.Errno.{
  Eff, ◌>>=◌, ◌>>◌, pure, deref, guard, non_null, feareadup, fe2small, fegeneric, ferr_loc_general,
}
use frugen.Fru.{Fru, fru_internal_use, fru_mr}
use frugen.Area.{put}
use frugen.Custom.{calc_checksum}
use frugen.Save.{Buffer, blocks, fru_ver, zeros, write_out, read_out}
use frugen.Save.Area.{Clock, encode_iu_area, encode_info_area, encode_mr_area}

-- sizeof(fru__file_t)
abbrev pub file_header_size : ℕ
file_header_size = 8

-- The table of encoders.
unfoldable pub encode_area : Clock → Buffer → ℕ → ℕ → Fru → Eff (Buffer × ℕ)
encode_area clock out offset atype fru =
    if atype == fru_internal_use
    then encode_iu_area out offset fru
    else if atype == fru_mr
    then encode_mr_area out offset fru.mr
    else encode_info_area clock out offset atype fru

-- An area that is present: it is encoded at the end of what is there, and its offset in blocks goes
-- into the file's header.
unfoldable pub append_area : Clock → Buffer → ℕ → ℕ → Fru → Eff (Buffer × ℕ)
append_area clock out totalsize atype fru = do
  (out', area_size) ← encode_area clock out totalsize atype fru
  pointed ← write_out out' (1 + atype) (u8 (blocks totalsize) ∷ [])
  pure (pointed, totalsize + area_size)

-- The loop over the order of the areas: `area_out` is `totalsize` bytes behind the start of the
-- buffer.
unfoldable pub encode_areas : Clock → Buffer → ℕ → List Bool → List ℕ → Fru → Eff (Buffer × ℕ)
encode_areas clock out totalsize processed [] fru = pure (out, totalsize)
encode_areas clock out totalsize processed (atype ∷ order) fru = do
  seen ← deref (get_elem? processed atype)
  guard (not seen) feareadup atype minus_one
  processed' ← put processed atype true
  here ← deref (get_elem? fru.present atype)
  elim here [
    | false ↦ encode_areas clock out totalsize processed' order fru
    | true ↦ do
      (out', totalsize') ← append_area clock out totalsize atype fru
      encode_areas clock out' totalsize' processed' order fru
  ]

-- `ver` is the low half of the first byte; the other half stays.
abbrev pub with_ver : ℕ → ℕ
with_ver first = first / 16 * 16 + fru_ver

-- The version and the checksum of the file's header, over its eight bytes.
unfoldable pub seal_file : Buffer → Eff Buffer
seal_file none = pure none
seal_file (some buf) = do
  first ← read_out (some buf) 0 1
  versioned ← write_out (some buf) 0 (with_ver (get_or first 0 0) ∷ [])
  hdr ← read_out versioned 0 file_header_size
  write_out versioned 7 (calc_checksum hdr ∷ [])

-- create_frufile
unfoldable pub create_frufile : Clock → Buffer → Fru → Eff (Buffer × ℕ)
create_frufile clock out fru = do
  (out', totalsize) ←
      encode_areas clock out file_header_size (false ∷ false ∷ false ∷ false ∷ false ∷ []) fru.order
        fru
  sealed ← seal_file out'
  pure (sealed, totalsize)

-- The buffer of fru_savebuffer, which is all zeros: a new one, or the caller's of `size` bytes.
unfoldable pub output_buffer : Bool → Option ℕ → ℕ → Eff Bytes
output_buffer allocated none realsize = do
  guard allocated fegeneric ferr_loc_general minus_one
  pure (zeros realsize)
output_buffer allocated (some size) realsize = do
  guard (leb realsize size) fe2small ferr_loc_general minus_one
  pure (zeros realsize)

-- fru_savebuffer, without the checks of its two output pointers: `capacity` is none if it allocates
-- the buffer, and else the size of the caller's, of which the model has the part that is used.
unfoldable pub savebuffer : Clock → Bool → Option ℕ → Option Fru → Eff (Buffer × ℕ)
savebuffer clock allocated capacity ptr = do
  fru ← non_null ptr ferr_loc_general
  (none_out, realsize) ← create_frufile clock none fru
  buf ← output_buffer allocated capacity realsize
  create_frufile clock (some buf) fru
