-- ===== src/Save/Overflow.antt =====
-- The padding of the internal use area in lib/fru_save.c.
use frugen.Common.{
  ℕ, ◌+◌, ◌-◌, ◌≤◌, ◌<◌, ◌≡◌, refl, false, some, [], ◌∷◌, Bytes, length, leb, arith,
}
use frugen.Errno.{FruErrno, ok, fault, bind_outcome, pure, deref}
use frugen.Hex.{hexstr2bin, hex_relaxed}
use frugen.Fru.{Fru}
use frugen.Save.{block_align, fru_ver, splice, write_out, zeros, blamed}
use frugen.Save.Area.{encode_iu_area}
use frugen.Save.Write.{write_out_lem, length-splice}
use frugen.Save.Sizes.{length-zeros}

write_out-fault :
    (buf : Bytes) (offset : ℕ) (bytes : Bytes) (e : FruErrno)
    → length buf < offset + length bytes
    → write_out (some buf) offset bytes e ≡ fault
unfolding write_out
write_out-fault buf offset bytes e h =
    let beyond : leb (offset + length bytes) (length buf) ≡ false = ground arith in rw beyond refl

-- When the internal use area is the last one in the output buffer, which has exactly the bytes
-- that encode_iu_area counts as the area's size, and its hex string is decoded to any bytes,
-- encode_iu_area writes beyond the buffer.
pub encode_iu_area-overflow :
    (buf : Bytes) (offset : ℕ) (fru : Fru) (hexstr bytes : Bytes) (e e1 : FruErrno)
    → fru.internal ≡ some hexstr
    → hexstr2bin hex_relaxed 0 hexstr e ≡ ok bytes e1
    → length buf ≡ offset + block_align (length bytes + 1)
    → encode_iu_area (some buf) offset fru e ≡ fault
unfolding encode_iu_area
encode_iu_area-overflow buf offset fru hexstr bytes e e1 there decoded exact =
    let size = block_align (length bytes + 1) in
    let fits1 : (offset + 1) + length bytes ≤ length buf = omega arith in
    let buf1 : Bytes = splice buf (offset + 1) bytes in
    let len1 = length-splice buf (offset + 1) bytes fits1 in
    let fits2 : offset + length (fru_ver ∷ []) ≤ length buf1 = omega arith in
    let buf2 : Bytes = splice buf1 offset (fru_ver ∷ []) in
    let len2 = length-splice buf1 offset (fru_ver ∷ []) fits2 in
    let beyond : length buf2 < (offset + 1 + length bytes) + length (zeros (size - length bytes)) =
      omega (arith, length-zeros (size - length bytes)) in
    rw (there, bind_outcome, deref, pure)
      (rw (decoded, blamed, bind_outcome)
        (rw (write_out_lem buf (offset + 1) bytes e1 fits1, bind_outcome)
          (rw (write_out_lem buf1 offset (fru_ver ∷ []) e1 fits2, bind_outcome)
            (rw
              (
                write_out-fault buf2 (offset + 1 + length bytes) (zeros (size - length bytes)) e1
                    beyond,
                bind_outcome,
              )
              refl))))
