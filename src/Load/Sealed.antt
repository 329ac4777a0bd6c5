-- ===== src/Load/Sealed.antt =====
-- The headers and checksums that lib/fru_save.c writes pass the checks of lib/fru_load.c.
use frugen.Common.{
  ℕ, zero, suc, ◌+◌, ◌-◌, ◌≤◌, ◌<◌, ◌≡◌, refl, sym, ap, ◌∙◌, some, [], ◌∷◌, ◌++◌, Bytes, length,
  take, drop, get_elem?, arith, true, leb, u8,
}
use frugen.Errno.{FruErrno, Eff, ok, bind_outcome, ◌>>=◌, pure, deref, guard}
use frugen.Field.{field_terminator}
use frugen.Custom.{sum_bytes, calc_checksum}
use frugen.Custom.Checksum.{sum_bytes-append, sum_bytes-lt, calc_checksum_appended}
use frugen.Save.{Buffer, fru_ver, blocks, bytes_of, block_align, zeros, splice, write_out}
use frugen.Save.Area.{finish_area, store_checksum, padding_size}
use frugen.Save.Write.{write_out_lem, read_out_lem, length-splice}
use frugen.Save.Sizes.{length-zeros, area_size_lem}
use frugen.Save.Reads.{
  get_elem?-drop, take-suc, get_elem?-splice_before, get_elem?-splice_in, take-splice_last,
}
use frugen.Load.{Flags, check}
use frugen.Load.Area.{check_info_area}

-- A zero at the end does not change the checksum.
pub calc_checksum_zero : (bytes : Bytes) → calc_checksum (bytes ++ 0 ∷ []) ≡ calc_checksum bytes
unfolding calc_checksum sum_bytes
calc_checksum_zero bytes =
    rw (sum_bytes-append 0 bytes (0 ∷ [])) (omega (arith, sum_bytes-lt 0 bytes (omega arith)))

get_elem?-zeros : (n k : ℕ) → k < n → get_elem? (zeros n) k ≡ some 0
get_elem?-zeros zero k h = absurd (omega arith)
get_elem?-zeros (suc n) zero h = refl
get_elem?-zeros (suc n) (suc k) h = get_elem?-zeros n k (omega arith)

-- An area whose last byte is zero, and then its checksum.
store_checksum_lem :
    (buf : Bytes) (offset n : ℕ) (e : FruErrno)
    → offset + suc n ≤ length buf
    → get_elem? buf (offset + n) ≡ some 0
    → (buf' : Bytes) × (store_checksum (some buf) offset (suc n) e ≡ ok (some buf') e)
      × (length buf' ≡ length buf)
      × (calc_checksum (take (suc n) (drop offset buf')) ≡ 0)
      × (buf' ≡ splice buf (offset + n) (calc_checksum (take (suc n) (drop offset buf)) ∷ []))
unfolding store_checksum
store_checksum_lem buf offset n e fits last =
    let area : Bytes = take (suc n) (drop offset buf) in
    let one : suc n - 1 ≡ n = omega arith in
    let front : Bytes = take n (drop offset buf) in
    let sum : ℕ = calc_checksum area in
    let inside : (offset + n) + length (sum ∷ []) ≤ length buf = omega arith in
    let at_end : get_elem? (drop offset buf) n ≡ some 0 =
      get_elem?-drop offset buf (offset + n) n refl ∙ last in
    let is_area : area ≡ front ++ 0 ∷ [] = take-suc n (drop offset buf) 0 at_end in
    let is_sum : sum ≡ calc_checksum front = ap calc_checksum is_area ∙ calc_checksum_zero front in
    let after = take-splice_last buf offset n sum fits in
    (
      splice buf (offset + n) (sum ∷ []),
      rw (read_out_lem buf offset (suc n) e fits, bind_outcome)
          (rw one (write_out_lem buf (offset + n) (sum ∷ []) e inside)),
      length-splice buf (offset + n) (sum ∷ []) inside,
      ap calc_checksum after
          ∙ ap (λ s. calc_checksum (front ++ s ∷ [])) is_sum
          ∙ calc_checksum_appended front,
      refl,
    )

-- An area of `suc n` bytes whose first byte is the version and whose second is its size in blocks.
check_info_area_lem :
    (buf : Bytes) (atype offset limit n : ℕ) (flags : Flags) (e : FruErrno)
    → offset + bytes_of n ≤ length buf
    → bytes_of n ≤ limit
    → 1 ≤ n
    → get_elem? buf offset ≡ some fru_ver
    → get_elem? buf (offset + 1) ≡ some n
    → calc_checksum (take (bytes_of n) (drop offset buf)) ≡ 0
    → check_info_area buf atype offset limit flags e ≡ ok (bytes_of n) e
unfolding check_info_area
check_info_area_lem buf atype offset limit n flags e fits within some_blocks ver size sum =
    let big : leb 3 limit ≡ true = ground arith in
    let enough : leb (bytes_of n) limit ≡ true = ground arith in
    rw (size, bind_outcome, deref, pure)
      (rw (big, guard)
        (rw (enough, guard)
          (rw (read_out_lem buf offset (bytes_of n) e fits, bind_outcome)
            (rw (sum, check) (rw (ver, bind_outcome, deref, pure) refl)))))

-- The area before its checksum: the version, the size, and zeros at the end.
fill_area_lem :
    (buf : Bytes) (offset bytes pad w : ℕ) (e : FruErrno)
    → 3 ≤ bytes
    → 1 ≤ pad
    → offset + (bytes + pad + 1) ≤ length buf
    → get_elem? buf offset ≡ some fru_ver
    → (buf3 : Bytes) × ((k : Buffer → Eff (Buffer × ℕ))
        → (write_out (some buf) (offset + bytes) (field_terminator ∷ []) >>= λ terminated.
              write_out terminated (offset + 1) (w ∷ []) >>= λ sized.
              write_out sized (offset + (bytes + 1)) (zeros pad) >>= k)
            e
          ≡ k (some buf3) e)
      × (length buf3 ≡ length buf)
      × (get_elem? buf3 offset ≡ some fru_ver)
      × (get_elem? buf3 (offset + 1) ≡ some w)
      × (get_elem? buf3 (offset + (bytes + pad)) ≡ some 0)
fill_area_lem buf offset bytes pad w e header padded fits ver =
    let buf1 : Bytes = splice buf (offset + bytes) (field_terminator ∷ []) in
    let fits1 : (offset + bytes) + length (field_terminator ∷ []) ≤ length buf = omega arith in
    let len1 = length-splice buf (offset + bytes) (field_terminator ∷ []) fits1 in
    let buf2 : Bytes = splice buf1 (offset + 1) (w ∷ []) in
    let fits2 : (offset + 1) + length (w ∷ []) ≤ length buf1 = omega arith in
    let len2 = length-splice buf1 (offset + 1) (w ∷ []) fits2 in
    let at3 : ℕ = offset + (bytes + 1) in
    let buf3 : Bytes = splice buf2 at3 (zeros pad) in
    let fits3 : at3 + length (zeros pad) ≤ length buf2 = omega (arith, length-zeros pad) in
    let len3 = length-splice buf2 at3 (zeros pad) fits3 in
    let last : get_elem? buf3 (offset + (bytes + pad)) ≡ some 0 =
      get_elem?-splice_in buf2 at3 (zeros pad) (offset + (bytes + pad)) (pad - 1) fits3
        (omega arith) (omega (arith, length-zeros pad))
      ∙ get_elem?-zeros pad (pad - 1) (omega arith) in
    let ver3 : get_elem? buf3 offset ≡ some fru_ver =
      get_elem?-splice_before buf2 at3 (zeros pad) offset fits3 (omega arith)
      ∙ get_elem?-splice_before buf1 (offset + 1) (w ∷ []) offset fits2 (omega arith)
      ∙ get_elem?-splice_before buf (offset + bytes) (field_terminator ∷ []) offset fits1
          (omega arith)
      ∙ ver in
    let size3 : get_elem? buf3 (offset + 1) ≡ some w =
      get_elem?-splice_before buf2 at3 (zeros pad) (offset + 1) fits3 (omega arith)
      ∙ get_elem?-splice_in buf1 (offset + 1) (w ∷ []) (offset + 1) 0 fits2 (omega arith)
          (omega arith) in
    (
      buf3,
      λ k.
          rw (write_out_lem buf (offset + bytes) (field_terminator ∷ []) e fits1, bind_outcome)
            (rw (write_out_lem buf1 (offset + 1) (w ∷ []) e fits2, bind_outcome)
              (rw (write_out_lem buf2 at3 (zeros pad) e fits3, bind_outcome) refl)),
      len3 ∙ len2 ∙ len1,
      ver3,
      size3,
      last,
    )

-- An information area that encode_info_area ends behind its first `bytes` bytes, at least 3 of
-- them, of which the first is the version, passes every check of decode_info_area on an area's
-- header and checksum, whatever the flags are, if the area has at most 2040 bytes, the buffer has
-- room for it and the limit is not below its size: the check returns the size that the encoder
-- reports, the multiple of eight that has room for the terminator and the checksum, and sets no
-- error.
pub finish_area-checked :
    (buf : Bytes) (offset bytes atype limit : ℕ) (flags : Flags) (e e' : FruErrno)
    → 3 ≤ bytes
    → bytes + 2 ≤ 2040
    → offset + block_align (bytes + 2) ≤ length buf
    → block_align (bytes + 2) ≤ limit
    → get_elem? buf offset ≡ some fru_ver
    → (buf' : Bytes) × (finish_area (some buf) offset bytes e
        ≡ ok (some buf', block_align (bytes + 2)) e)
      × (check_info_area buf' atype offset limit flags e' ≡ ok (block_align (bytes + 2)) e')
unfolding finish_area
finish_area-checked buf offset bytes atype limit flags e e' header small fits within ver =
    let (size, padded) = area_size_lem bytes in
    let pad : ℕ = padding_size bytes in
    let w : ℕ = blocks (bytes + 1 + 1) in
    let is_w : u8 w ≡ w = omega arith in
    let w_size : bytes_of w ≡ block_align (bytes + 2) = omega arith in
    let n : ℕ = bytes + pad in
    let (buf3, filled, len3, ver3, size3, last) =
      fill_area_lem buf offset bytes pad (u8 w) e header padded (omega arith) ver in
    let (buf', sealed, len, zero_sum, is_buf') =
      store_checksum_lem buf3 offset n e (omega arith) last in
    let whole : (bytes + 1) + pad ≡ suc n = omega arith in
    let n_size : suc n ≡ bytes_of w = omega arith in
    let sealed' : store_checksum (some buf3) offset ((bytes + 1) + pad) e ≡ ok (some buf') e =
      ap (λ k. store_checksum (some buf3) offset k e) whole ∙ sealed in
    let last_byte : ℕ = calc_checksum (take (suc n) (drop offset buf3)) in
    let fits4 : (offset + n) + length (last_byte ∷ []) ≤ length buf3 = omega arith in
    let ver' : get_elem? buf' offset ≡ some fru_ver =
      ap (λ b. get_elem? b offset) is_buf'
      ∙ get_elem?-splice_before buf3 (offset + n) (last_byte ∷ []) offset fits4 (omega arith)
      ∙ ver3 in
    let size' : get_elem? buf' (offset + 1) ≡ some w =
      ap (λ b. get_elem? b (offset + 1)) is_buf'
      ∙ get_elem?-splice_before buf3 (offset + n) (last_byte ∷ []) (offset + 1) fits4 (omega arith)
      ∙ size3
      ∙ ap some is_w in
    let zero' : calc_checksum (take (bytes_of w) (drop offset buf')) ≡ 0 =
      sym (ap (λ k. calc_checksum (take k (drop offset buf'))) n_size) ∙ zero_sum in
    let checked =
      check_info_area_lem buf' atype offset limit w flags e' (omega arith) (omega arith)
        (omega arith) ver' size' zero' in
    (
      buf',
      filled (λ out.
            store_checksum out offset (bytes + 1 + pad) >>= λ out'. pure (out', bytes + pad + 1))
          ∙ rw (sealed', bind_outcome) (ap (λ k. ok (some buf', k) e) size),
      checked ∙ ap (λ k. ok k e') w_size,
    )
