-- ===== src/Load/Header.antt =====
-- The file's header: what seal_file of lib/fru_save.c writes is accepted, and the limits of areas.
use frugen.Common.{
  ℕ, ◌+◌, ◌-◌, ◌≤◌, ◌<◌, ◌≡◌, refl, Bool, true, not, ◌&&◌, some, List, [], ◌∷◌, ◌++◌, Bytes, length,
  get_elem?, arith, ◌==◌, leb, ltb, All, Bool-cases, inl, inr,
}
use frugen.Errno.{FruErrno, ok, bind_outcome, pure, deref, guard}
use frugen.Custom.{calc_checksum}
use frugen.Save.{fru_ver, bytes_of, splice}
use frugen.Save.File.{seal_file, file_header_size, with_ver}
use frugen.Save.Write.{write_out_lem, read_out_lem}
use frugen.Load.{Flags, check, find_fru_header, closest_area, get_area_limit, all_areas}
use frugen.Load.Sealed.{calc_checksum_zero}

-- The header that create_frufile seals, at the start of a buffer where the reserved half of the
-- first byte, the pad byte and the checksum are still zero, is accepted by find_fru_header
-- whatever the flags are, and no error is set.
pub seal_file-find :
    (a b c d f g : ℕ) (rest : Bytes) (flags : Flags) (e e' : FruErrno)
    → a < 16
    → (buf' : Bytes) × (seal_file (some (a ∷ b ∷ c ∷ d ∷ f ∷ g ∷ 0 ∷ 0 ∷ rest)) e
        ≡ ok (some buf') e)
      × (find_fru_header buf' flags e' ≡ ok tt e')
unfolding seal_file find_fru_header splice
seal_file-find a b c d f g rest flags e e' low =
    let buf : Bytes = a ∷ b ∷ c ∷ d ∷ f ∷ g ∷ 0 ∷ 0 ∷ rest in
    let buf1 : Bytes = fru_ver ∷ b ∷ c ∷ d ∷ f ∷ g ∷ 0 ∷ 0 ∷ rest in
    let checked : Bytes = fru_ver ∷ b ∷ c ∷ d ∷ f ∷ g ∷ 0 ∷ [] in
    let zero_high : with_ver a ≡ fru_ver = omega arith in
    let sum : ℕ = calc_checksum (checked ++ 0 ∷ []) in
    let buf' : Bytes = checked ++ sum ∷ rest in
    let same : (sum == calc_checksum checked) ≡ true =
      let eq = calc_checksum_zero checked in ground arith in
    let enough : leb file_header_size (length buf') ≡ true = ground arith in
    (
      buf',
      rw
          (
            read_out_lem buf 0 1 e (omega arith),
            bind_outcome,
            zero_high,
            write_out_lem buf 0 (fru_ver ∷ []) e (omega arith),
          )
          (rw (read_out_lem buf1 0 file_header_size e (omega arith), bind_outcome)
            (write_out_lem buf1 7 (sum ∷ []) e (omega arith))),
      rw (enough, guard)
          (rw (read_out_lem buf' 0 7 e' (omega arith), bind_outcome) (rw (same, check) refl)),
    )

-- A header whose pointer to the area is `p`.
abbrev pub Pointed : Bytes → ℕ → Type 0
Pointed image atype = (p : ℕ) × (get_elem? image (1 + atype) ≡ some p) × (bytes_of p ≤ length image)

module _ (image : Bytes) (type_ area_ptr : ℕ) where
  closest_area-bounds :
      (areas : List ℕ) (next_offset last_offset : ℕ) (e : FruErrno)
      → All (Pointed image) areas
      → bytes_of area_ptr < next_offset
      → next_offset ≤ length image
      → (limit : ℕ) × (closest_area image type_ area_ptr next_offset last_offset areas e
          ≡ ok limit e)
        × (bytes_of area_ptr < limit)
        × (limit ≤ length image)
  unfolding closest_area
  closest_area-bounds [] next_offset last_offset e h above below = (next_offset, refl, above, below)
  closest_area-bounds (atype ∷ rest) next_offset last_offset e ((p, at, inside), h) above below =
      let closer : Bool =
        not (atype == type_)
        && (ltb area_ptr p
            && ltb (bytes_of area_ptr) next_offset
            && ltb (bytes_of p) last_offset) in
      elim (Bool-cases closer) [
        | inl next ↦
            let behind : bytes_of area_ptr < bytes_of p = ground arith in
            let (limit, eq, lo, hi) =
              closest_area-bounds rest (bytes_of p) (bytes_of p) e h behind inside in
            (limit, rw (at, bind_outcome, deref, pure) (rw next eq), lo, hi)
        | inr farther ↦
            let (limit, eq, lo, hi) =
              closest_area-bounds rest next_offset last_offset e h above below in
            (limit, rw (at, bind_outcome, deref, pure) (rw farther eq), lo, hi)
      ]

-- If the five pointers of a file's header are in the image and none of them points beyond its
-- end, then for an area that begins inside the image get_area_limit succeeds with a limit that is
-- not zero, with which the area ends inside the image.
pub get_area_limit-bounds :
    (image : Bytes) (type_ p : ℕ) (e : FruErrno)
    → All (Pointed image) all_areas
    → get_elem? image (1 + type_) ≡ some p
    → bytes_of p < length image
    → (limit : ℕ) × (get_area_limit image type_ e ≡ ok limit e)
      × (1 ≤ limit)
      × (bytes_of p + limit ≤ length image)
unfolding get_area_limit
get_area_limit-bounds image type_ p e pointed at inside =
    let (next, eq, lo, hi) =
      closest_area-bounds image type_ p all_areas (length image) 0xff e pointed inside
        (omega arith) in
    let begins : leb (bytes_of p + 1) (length image) ≡ true = ground arith in
    (
      next - bytes_of p,
      rw (at, bind_outcome, deref, pure) (rw (eq, bind_outcome) (rw (begins, guard) refl)),
      omega arith,
      omega arith,
    )
