-- ===== src/Load/Ends.antt =====
-- The header of an information area, and what ends it, as the encoder leaves them in the buffer.
use frugen.Common.{
  ℕ, ◌+◌, ◌-◌, ◌≤◌, ◌≡◌, ◌⊎◌, inl, inr, sym, ap, ◌∙◌, some, [], ◌∷◌, Bytes, length, arith,
  get_elem?, u8, if◌then◌else◌, ◌==◌, Bool-cases,
}
use mathlib.Core.Path.{subst}
use frugen.Errno.{FruErrno, Eff, ok, bind-eq-ok, ◌>>=◌, pure}
use frugen.Field.{field_terminator}
use frugen.Fru.{Fru, fru_board_info, fru_chassis_info}
use frugen.Custom.{calc_checksum}
use frugen.Save.{Buffer, splice, write_out, read_out, fru_ver, blocks, zeros}
use frugen.Save.Area.{
  Clock, encode_header, langtype, date_bytes, finish_area, store_checksum, padding_size,
}
use frugen.Save.Write.{length-splice}
use frugen.Save.Reads.{get_elem?-splice_before, get_elem?-splice_in}
use frugen.Save.Sizes.{length-zeros, area_size_lem, date_bytes-length}
use frugen.Save.Region.{Agrees, splice-Agrees, write_out-eq-ok}

-- The size of the header: the board area has a date.
abbrev pub header_size : ℕ → ℕ
header_size atype = if atype == fru_board_info then 6 else 3

pub record HeaderWritten (buf : Bytes) (offset atype : ℕ) (fru : Fru) (r : Buffer × ℕ)
    : Type 0 where
  pub buf' : Bytes
  pub result : r ≡ (some buf', header_size atype)
  pub same_length : length buf' ≡ length buf
  pub inside : offset + 3 ≤ length buf
  pub version : get_elem? buf' offset ≡ some fru_ver
  pub typed : get_elem? buf' (offset + 2) ≡ some (langtype fru (atype - fru_chassis_info))

-- A write that succeeds, and what follows it.
written :
    (buf : Bytes) (at : ℕ) (bytes : Bytes) (e : FruErrno) (k : Buffer → Eff (Buffer × ℕ))
    {r : Buffer × ℕ} {e' : FruErrno}
    → (write_out (some buf) at bytes >>= k) e ≡ ok r e'
    → (at + length bytes ≤ length buf)
      × (e1 : FruErrno) × (k (some (splice buf at bytes)) e1 ≡ ok r e')
written buf at bytes e k h =
    let (out, e1, wrote, more) = bind-eq-ok (write_out (some buf) at bytes e) k h in
    let (fits, is_out, same) = write_out-eq-ok buf at bytes e wrote in
    (fits, e1, sym (ap (λ x. k x e1) is_out) ∙ more)

pub encode_header-HeaderWritten :
    (clock : Clock) (buf : Bytes) (offset atype : ℕ) (fru : Fru) (r : Buffer × ℕ) (e e' : FruErrno)
    → encode_header clock (some buf) offset atype fru e ≡ ok r e'
    → HeaderWritten buf offset atype fru r
unfolding encode_header
encode_header-HeaderWritten clock buf offset atype fru r e e' h =
    let type_ : ℕ = langtype fru (atype - fru_chassis_info) in
    let (fits1, e1, more) = written buf offset (fru_ver ∷ []) e _ h in
    let buf1 : Bytes = splice buf offset (fru_ver ∷ []) in
    let (fits2, e2, rest) = written buf1 (offset + 2) (type_ ∷ []) e1 _ more in
    let buf2 : Bytes = splice buf1 (offset + 2) (type_ ∷ []) in
    let at2 : offset + 2 + length (type_ ∷ []) ≤ length buf1 = omega arith in
    let len1 = length-splice buf offset (fru_ver ∷ []) (omega arith) in
    let len2 = length-splice buf1 (offset + 2) (type_ ∷ []) at2 in
    let version : get_elem? buf2 offset ≡ some fru_ver =
      get_elem?-splice_before buf1 (offset + 2) (type_ ∷ []) offset at2 (omega arith)
      ∙ get_elem?-splice_in buf offset (fru_ver ∷ []) offset 0 (omega arith) (omega arith)
          (omega arith) in
    let typed : get_elem? buf2 (offset + 2) ≡ some type_ =
      get_elem?-splice_in buf1 (offset + 2) (type_ ∷ []) (offset + 2) 0 at2 (omega arith)
        (omega arith) in
    elim (Bool-cases (atype == fru_board_info)) [
      | inr other ↦
          let done = rw other at rest in
          record {
            buf' = buf2;
            result = rw other (cc);
            same_length = len2 ∙ len1;
            inside = omega arith;
            version = version;
            typed = typed;
          }
      | inl board ↦
          let dating = rw board at rest in
          let (date, e3, dated, writing) = bind-eq-ok (date_bytes clock fru.board e2) _ dating in
          let three = date_bytes-length clock fru.board e2 e3 date dated in
          let (fits3, e4, done) = written buf2 (offset + 3) date e3 (λ x. pure (x, 6)) writing in
          record {
            buf' = splice buf2 (offset + 3) date;
            result = rw board (cc);
            same_length = length-splice buf2 (offset + 3) date fits3 ∙ len2 ∙ len1;
            inside = omega arith;
            version =
                get_elem?-splice_before buf2 (offset + 3) date offset fits3 (omega arith) ∙ version;
            typed =
                get_elem?-splice_before buf2 (offset + 3) date (offset + 2) fits3 (omega arith)
                ∙ typed;
          }
    ]

around :
    (lo hi offset : ℕ)
    → (hi ≤ offset + 1) ⊎ (offset + 2 ≤ lo)
    → (hi ≤ offset + 1) ⊎ (offset + 1 + 1 ≤ lo)
around lo hi offset (inl before) = inl before
around lo hi offset (inr behind) = inr (omega arith)

store_checksum-splice :
    (buf : Bytes) (offset n : ℕ) (e : FruErrno) {out : Buffer} {e' : FruErrno}
    → store_checksum (some buf) offset n e ≡ ok out e'
    → (sum : ℕ) × (offset + (n - 1) + length (sum ∷ []) ≤ length buf)
      × (out ≡ some (splice buf (offset + (n - 1)) (sum ∷ [])))
unfolding store_checksum
store_checksum-splice buf offset n e h =
    let (area, e1, read, wrote) = bind-eq-ok (read_out (some buf) offset n e) _ h in
    let sum : ℕ = calc_checksum area in
    let (fits, is_out, same) = write_out-eq-ok buf (offset + (n - 1)) (sum ∷ []) e1 wrote in
    (sum, fits, is_out)

-- The end of an area leaves the header and the fields in place.
pub record AreaEnded (buf : Bytes) (offset bytes : ℕ) (buf' : Bytes) (size : ℕ) : Type 0 where
  pub sized : size ≡ bytes + padding_size bytes + 1
  pub same_length : length buf' ≡ length buf
  pub inside : offset + (bytes + padding_size bytes + 1) ≤ length buf
  pub header : get_elem? buf' offset ≡ get_elem? buf offset
  pub kept : Agrees buf buf' (offset + 2) (offset + bytes)
  pub terminated : get_elem? buf' (offset + bytes) ≡ some field_terminator

pub finish_area-AreaEnded :
    (buf : Bytes) (offset bytes : ℕ) (buf' : Bytes) (size : ℕ) (e e' : FruErrno)
    → 3 ≤ bytes
    → finish_area (some buf) offset bytes e ≡ ok (some buf', size) e'
    → AreaEnded buf offset bytes buf' size
unfolding finish_area
finish_area-AreaEnded buf offset bytes buf' size e e' header h =
    let pad : ℕ = padding_size bytes in
    let some_pad = (area_size_lem bytes).1 in
    let n : ℕ = bytes + 1 + pad in
    let mark : Bytes = field_terminator ∷ [] in
    let (fits1, e1, h1) = written buf (offset + bytes) mark e _ h in
    let buf1 : Bytes = splice buf (offset + bytes) mark in
    let len1 = length-splice buf (offset + bytes) mark fits1 in
    let size_byte : Bytes = u8 (blocks (bytes + 1 + 1)) ∷ [] in
    let (fits2, e2, h2) = written buf1 (offset + 1) size_byte e1 _ h1 in
    let buf2 : Bytes = splice buf1 (offset + 1) size_byte in
    let len2 = length-splice buf1 (offset + 1) size_byte fits2 in
    let (fits3, e3, h3) = written buf2 (offset + (bytes + 1)) (zeros pad) e2 _ h2 in
    let buf3 : Bytes = splice buf2 (offset + (bytes + 1)) (zeros pad) in
    let len3 = length-splice buf2 (offset + (bytes + 1)) (zeros pad) fits3 in
    let (out, e4, sealed, done) =
      bind-eq-ok (store_checksum (some buf3) offset n e3) (λ x. pure (x, bytes + pad + 1)) h3 in
    let (sum, fits4, is_out) = store_checksum-splice buf3 offset n e3 sealed in
    let is_buf' : splice buf3 (offset + (n - 1)) (sum ∷ []) ≡ buf' = cc in
    let len4 = length-splice buf3 (offset + (n - 1)) (sum ∷ []) fits4 in
    let later : (lo hi : ℕ)
        → hi ≤ offset + bytes + 1
        → (hi ≤ offset + 1) ⊎ (offset + 2 ≤ lo)
        → Agrees buf1 (splice buf3 (offset + (n - 1)) (sum ∷ [])) lo hi =
      λ lo hi below apart k above under.
        splice-Agrees buf3 (offset + (n - 1)) (sum ∷ []) lo hi fits4 (inl (omega arith)) k above
          under
        ∙ splice-Agrees buf2 (offset + (bytes + 1)) (zeros pad) lo hi fits3 (inl (omega arith)) k
            above under
        ∙ splice-Agrees buf1 (offset + 1) size_byte lo hi fits2 (around lo hi offset apart) k above
            under in
    let first : (lo hi : ℕ) → hi ≤ offset + bytes → Agrees buf buf1 lo hi =
      λ lo hi below. splice-Agrees buf (offset + bytes) mark lo hi fits1 (inl below) in
    let ended : AreaEnded buf offset bytes (splice buf3 (offset + (n - 1)) (sum ∷ [])) size =
      record {
        sized = cc;
        same_length = len4 ∙ len3 ∙ len2 ∙ len1;
        inside = omega (arith, length-zeros pad);
        header =
            later offset (offset + 1) (omega arith) (inl (omega arith)) offset (omega arith)
              (omega arith)
            ∙ first offset (offset + 1) (omega arith) offset (omega arith) (omega arith);
        kept = λ k above below.
            later (offset + 2) (offset + bytes) (omega arith) (inr (omega arith)) k above below
            ∙ first (offset + 2) (offset + bytes) (omega arith) k above below;
        terminated =
            later (offset + bytes) (offset + bytes + 1) (omega arith) (inr (omega arith))
              (offset + bytes) (omega arith) (omega arith)
            ∙ get_elem?-splice_in buf (offset + bytes) mark (offset + bytes) 0 fits1 (omega arith)
                (omega arith);
      } in
    subst (λ b. AreaEnded buf offset bytes b size) is_buf' ended
