-- ===== src/Load.antt =====
-- What the decoders of lib/fru_load.c share: the flags, the reads of the file's image, the checks
-- of the file's header, and the limits of areas.
pub mod Area
pub mod Record
pub mod Order
pub mod File
pub mod Sealed
pub mod Recoded
pub mod Ends
pub mod Filled
pub mod InfoArea
pub mod Survives
pub mod Encodings
pub mod Added
pub mod Same
pub mod Uuid
pub mod FieldLoop
pub mod HeldLoop
pub mod Header
pub mod Rounds
pub mod Frame
pub mod Keeps
pub mod KeepsRecords
pub mod Loaded
pub mod Grouping
mod Sample
mod Tests
use frugen.Common.{
  ℕ, zero, suc, ◌+◌, ◌-◌, ◌*◌, ◌/◌, Bool, true, false, not, ◌&&◌, ◌||◌, some, none, List, [], ◌∷◌,
  Bytes, low_bits, length, leb, ltb, ◌==◌, get_elem?, if◌then◌else◌, minus_one,
}
use frugen.Errno.{
  FruErrno, Outcome, ok, fail, fault, Eff, ErrorCode, ◌>>=◌, ◌>>◌, pure, deref, guard, fail_with,
  seterr, fe2small, fehdrver, fehdrcksum, ferr_loc_general,
}
use frugen.Custom.{calc_checksum}
use frugen.Save.{bytes_of, fru_ver, read_out}
use frugen.Save.File.{file_header_size}

-- fru_flags_t, the members that the decoders look at.
pub record Flags : Type 0 where
  pub ign_fver : Bool
  pub ign_fhcksum : Bool
  pub ign_aver : Bool
  pub ign_rver : Bool
  pub ign_acksum : Bool
  pub ign_rhcksum : Bool
  pub ign_rdcksum : Bool
  pub ign_rnoeol : Bool
  pub ign_aeof : Bool
  pub ign_mrdatalen : Bool

-- The file's image is the memory that the decoders read; a pointer into it is an offset, and a read
-- beyond it is undefined.
abbrev pub byte_at : Bytes → ℕ → Eff ℕ
byte_at image offset = deref (get_elem? image offset)

abbrev pub bytes_at : Bytes → ℕ → ℕ → Eff Bytes
bytes_at image offset size = read_out (some image) offset size

-- A check that sets an error and lets the code go on if the flag is set.
abbrev pub check : Bool → Bool → ErrorCode → ℕ → Eff (Unit {0})
check true ignored err where_ = pure tt
check false true err where_ = seterr err where_ minus_one
check false false err where_ = fail_with err where_ minus_one

-- The members `ver`, `rsvd` and `pad` of the file's header.
abbrev pub header_version_ok : ℕ → ℕ → Bool
header_version_ok first_byte pad =
    low_bits first_byte 4 == fru_ver && first_byte / 16 == 0 && pad == 0

-- find_fru_header, which returns the image's start if it does not fail.
unfoldable pub find_fru_header : Bytes → Flags → Eff (Unit {0})
find_fru_header image flags = do
  guard (leb file_header_size (length image)) fe2small ferr_loc_general minus_one
  first_byte ← byte_at image 0
  pad ← byte_at image 6
  check (header_version_ok first_byte pad) flags.ign_fver fehdrver ferr_loc_general
  checked ← bytes_at image 0 (file_header_size - 1)
  hchecksum ← byte_at image 7
  check (hchecksum == calc_checksum checked) flags.ign_fhcksum fehdrcksum ferr_loc_general

-- The pointer to an area in the file's header, in blocks.
abbrev pub area_pointer : Bytes → ℕ → Eff ℕ
area_pointer image atype = byte_at image (1 + atype)

-- The loop of get_area_limit, with `next_area_offset` and `last_area_offset`.
unfoldable pub closest_area : Bytes → ℕ → ℕ → ℕ → ℕ → List ℕ → Eff ℕ
closest_area image type_ area_ptr next_offset last_offset [] = pure next_offset
closest_area image type_ area_ptr next_offset last_offset (atype ∷ rest) = do
  next_ptr ← area_pointer image atype
  let closer =
      ltb area_ptr next_ptr
      && ltb (bytes_of area_ptr) next_offset
      && ltb (bytes_of next_ptr) last_offset
  elim (not (atype == type_) && closer) [
    | true ↦ closest_area image type_ area_ptr (bytes_of next_ptr) (bytes_of next_ptr) rest
    | false ↦ closest_area image type_ area_ptr next_offset last_offset rest
  ]

-- FRU_FOREACH_AREA
abbrev pub all_areas : List ℕ
all_areas = 0 ∷ 1 ∷ 2 ∷ 3 ∷ 4 ∷ []

-- get_area_limit, which returns 0 on an error; the next area is behind this one, or else this one
-- is behind the end, and the subtraction does not wrap.
unfoldable pub get_area_limit : Bytes → ℕ → Eff ℕ
get_area_limit image type_ = do
  area_ptr ← area_pointer image type_
  next_offset ← closest_area image type_ area_ptr (length image) 0xff all_areas
  guard (leb (bytes_of area_ptr + 1) (length image)) fe2small type_ minus_one
  pure (next_offset - bytes_of area_ptr)
