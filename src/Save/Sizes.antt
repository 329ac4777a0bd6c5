-- ===== src/Save/Sizes.antt =====
-- The encoders of information areas write as many bytes as they count.
use frugen.Common.{
  ℕ, zero, suc, ◌+◌, ◌-◌, ◌≤◌, ◌≡◌, if◌then◌else◌, refl, sym, ap, ◌∙◌, some, List, [], ◌∷◌, Bytes,
  length, take, drop, length-take, ltb, not, lt_int, arith, low_bits, u8, pos, Bool-cases, inl, inr,
  ◌==◌, minus_one,
}
use frugen.Errno.{
  FruErrno, Eff, ok, fault, bind_outcome, deref, ◌>>=◌, bind-eq-ok, pure, clearerr, febdate,
}
use frugen.Field.{Field, FileField, field_terminator}
use frugen.Field.Decode.{read_data}
use frugen.Field.Encode.{encode_field}
use frugen.Fru.{Fru, Board, Reclist, fields, fru_board_info, fru_chassis_info}
use frugen.Custom.{calc_checksum, get_customlist, custom_index}
use frugen.Save.{Buffer, splice, on_fail, write_out, zeros, blocks, block_align, fru_ver}
use frugen.Save.Area.{
  Clock, add_field_to_area, time_to_set, encode_fields, encode_custom, encode_header, date_bytes,
  finish_area, store_checksum, encode_info_area, padding_size, langtype, datetime_max,
}
use frugen.Save.Write.{Honest, write_out_lem, read_out_lem, length-splice, guard-eq-ok}
use frugen.Save.Honest.{
  weaken-Honest, pure-Honest, Patch, Patch-Honest, write-Honest, effect-Honest, on_fail-Honest,
  seq-Honest,
}

pub length-zeros : (n : ℕ) → length (zeros n) ≡ n
length-zeros zero = refl
length-zeros (suc n) = ap suc (length-zeros n)

-- The data of a field that are read are as many as its length says.
read_data-length :
    (f : FileField) (e e' : FruErrno) (bytes : Bytes)
    → read_data f e ≡ ok bytes e'
    → length bytes ≡ low_bits f.typelen 6
unfolding read_data
read_data-length f e e' bytes h =
    elim (Bool-cases (ltb (length f.payload) (low_bits f.typelen 6))) [
      | inl short ↦ let stuck : read_data f e ≡ fault = rw (short, read_data) refl in cc
      | inr enough ↦
          let taken : read_data f e ≡ ok (take (low_bits f.typelen 6) f.payload) e =
            rw (enough, read_data) refl in
          let same : bytes ≡ take (low_bits f.typelen 6) f.payload = cc in
          let room : low_bits f.typelen 6 ≤ length f.payload = ground arith in
          ap length same ∙ omega (arith, length-take (low_bits f.typelen 6) f.payload)
    ]

pub add_field-Honest :
    (offset bytes : ℕ) (field : Field)
    → Honest (λ out. add_field_to_area out offset bytes field) offset bytes
unfolding add_field_to_area
add_field-Honest offset bytes field =
    let finish : FileField → Bytes → Buffer → Eff (Buffer × ℕ) = λ f payload out.
      write_out out (offset + bytes) (f.typelen ∷ payload) >>= λ out'.
      pure (out', bytes + (low_bits f.typelen 6 + 1)) in
    let copy : FileField → Buffer → Eff (Buffer × ℕ) =
      λ f out. read_data f >>= λ payload. finish f payload out in
    effect-Honest offset bytes clearerr
      (λ _ out. encode_field field.enc (some field.val) >>= λ f. copy f out)
      (λ _ e e1 _.
        effect-Honest offset bytes (encode_field field.enc (some field.val)) copy (λ f e2 e3 _.
          effect-Honest offset bytes (read_data f) (finish f) (λ payload e4 e5 rd.
            let n = bytes + (low_bits f.typelen 6 + 1) in
            let size = read_data-length f e4 e5 payload rd in
            let fits : (offset + bytes) + length (f.typelen ∷ payload) ≤ offset + n = omega arith in
            weaken-Honest offset n bytes (λ out. finish f payload out) (omega arith)
              (write-Honest offset (offset + bytes) n (f.typelen ∷ payload) (λ out. pure (out, n))
                fits (pure-Honest offset n n (omega arith))))))

pub encode_fields-Honest :
    (offset bytes atype i : ℕ) (fs : List Field)
    → Honest (λ out. encode_fields out offset bytes atype i fs) offset bytes
unfolding encode_fields
encode_fields-Honest offset bytes atype i [] = pure-Honest offset bytes bytes (omega arith)
encode_fields-Honest offset bytes atype i (field ∷ rest) =
    let blame : FruErrno → FruErrno = λ e. record e { src = atype; index = pos i } in
    seq-Honest offset offset bytes bytes
      (λ out. on_fail blame (add_field_to_area out offset bytes field))
      (λ p. encode_fields p.0 offset p.1 atype (suc i) rest)
      (on_fail-Honest offset bytes blame (λ out. add_field_to_area out offset bytes field)
        (add_field-Honest offset bytes field))
      (λ n big. (n, omega arith, big, encode_fields-Honest offset n atype (suc i) rest))

pub encode_custom-Honest :
    (offset bytes atype : ℕ) (fs : Reclist)
    → Honest (λ out. encode_custom out offset bytes atype fs) offset bytes
unfolding encode_custom
encode_custom-Honest offset bytes atype [] = pure-Honest offset bytes bytes (omega arith)
encode_custom-Honest offset bytes atype (rec ∷ rest) =
    let blame : FruErrno → FruErrno = λ e. record e { src = atype; index = custom_index atype 0 } in
    let next : Buffer × ℕ → Eff (Buffer × ℕ) = λ p. encode_custom p.0 offset p.1 atype rest in
    effect-Honest offset bytes (deref rec)
      (λ field out. on_fail blame (add_field_to_area out offset bytes field) >>= next)
      (λ field e e1 eq.
        seq-Honest offset offset bytes bytes
          (λ out. on_fail blame (add_field_to_area out offset bytes field)) next
          (on_fail-Honest offset bytes blame (λ out. add_field_to_area out offset bytes field)
            (add_field-Honest offset bytes field))
          (λ n big. (n, omega arith, big, encode_custom-Honest offset n atype rest)))

-- The three bytes of a date.
pub date_bytes-length :
    (clock : Clock) (board : Board) (e e' : FruErrno) (date : Bytes)
    → date_bytes clock board e ≡ ok date e'
    → length date ≡ 3
unfolding date_bytes
date_bytes-length clock board e e' date h =
    let (tv, e1, h1, k1) = bind-eq-ok (time_to_set clock board e) _ h in
    let k2 =
      guard-eq-ok (not (lt_int (datetime_max clock) tv.tv_sec)) febdate fru_board_info minus_one e1
        _ k1 in
    ok-length k2
  where
    ok-length :
        {x y : ℕ} {z : ℕ} {b : Bytes} {e1 e2 : FruErrno}
        → ok (x ∷ y ∷ z ∷ []) e1 ≡ ok b e2
        → length b ≡ 3
    ok-length {x} {y} {z} {b} eq = let same : x ∷ y ∷ z ∷ [] ≡ b = cc in sym (ap length same)

pub encode_header-Honest :
    (clock : Clock) (offset atype : ℕ) (fru : Fru)
    → Honest (λ out. encode_header clock out offset atype fru) offset 3
unfolding encode_header
encode_header-Honest clock offset atype fru =
    let type_ : ℕ = langtype fru (atype - fru_chassis_info) in
    let dated : Bytes → Buffer → Eff (Buffer × ℕ) =
      λ date typed. write_out typed (offset + 3) date >>= λ out'. pure (out', 6) in
    let rest : Buffer → Eff (Buffer × ℕ) = λ typed.
      if atype == fru_board_info
      then (date_bytes clock fru.board >>= λ date. dated date typed)
      else pure (typed, 3) in
    let typing : Buffer → Eff (Buffer × ℕ) =
      λ out. write_out out (offset + 2) (type_ ∷ []) >>= rest in
    let rest-Honest : Honest rest offset 3 = elim (Bool-cases (atype == fru_board_info)) [
      | inl board ↦ rw board (
          weaken-Honest offset 6 3
            (λ typed. date_bytes clock fru.board >>= λ date. dated date typed) (omega arith)
            (effect-Honest offset 6 (date_bytes clock fru.board) dated (λ date e e1 eq.
              let three = date_bytes-length clock fru.board e e1 date eq in
              write-Honest offset (offset + 3) 6 date (λ out'. pure (out', 6)) (omega arith)
                (pure-Honest offset 6 6 (omega arith)))))
      | inr other ↦ rw other (pure-Honest offset 3 3 (omega arith))
    ] in
    write-Honest offset offset 3 (fru_ver ∷ []) typing (omega arith)
      (write-Honest offset (offset + 2) 3 (type_ ∷ []) rest (omega arith) rest-Honest)

store_checksum-Patch :
    (offset size : ℕ) → 1 ≤ size → Patch (λ out. store_checksum out offset size) (offset + size)
unfolding store_checksum
store_checksum-Patch offset size some_bytes = record {
  silent = λ e. refl;
  patches = λ buf e fits.
      let sum : ℕ = calc_checksum (take size (drop offset buf)) in
      let inside : (offset + (size - 1)) + length (sum ∷ []) ≤ length buf = omega arith in
      (
        splice buf (offset + (size - 1)) (sum ∷ []),
        rw (read_out_lem buf offset size e fits, bind_outcome)
            (write_out_lem buf (offset + (size - 1)) (sum ∷ []) e inside),
        length-splice buf (offset + (size - 1)) (sum ∷ []) inside,
      );
}

-- The size of an information area that is made of whole blocks, and has room for the terminator and
-- the checksum behind the fields.
pub area_size_lem :
    (bytes : ℕ)
    → (bytes + padding_size bytes + 1 ≡ block_align (bytes + 2)) × (1 ≤ padding_size bytes)
area_size_lem bytes = (omega arith, omega arith)

pub finish_area-Honest :
    (offset bytes : ℕ)
    → 3 ≤ bytes
    → Honest (λ out. finish_area out offset bytes) offset (bytes + padding_size bytes + 1)
unfolding finish_area
finish_area-Honest offset bytes header =
    let n = bytes + padding_size bytes + 1 in
    let sizes = area_size_lem bytes in
    let sealed : Buffer → Eff (Buffer × ℕ) = λ padded.
      store_checksum padded offset (bytes + 1 + padding_size bytes) >>= λ out. pure (out, n) in
    let padded : Buffer → Eff (Buffer × ℕ) =
      λ sized. write_out sized (offset + (bytes + 1)) (zeros (padding_size bytes)) >>= sealed in
    let sized : Buffer → Eff (Buffer × ℕ) = λ terminated.
      write_out terminated (offset + 1) (u8 (blocks (bytes + 1 + 1)) ∷ []) >>= padded in
    write-Honest offset (offset + bytes) n (field_terminator ∷ []) sized (omega arith) (
      write-Honest offset (offset + 1) n (u8 (blocks (bytes + 1 + 1)) ∷ []) padded (omega arith) (
        write-Honest offset (offset + (bytes + 1)) n (zeros (padding_size bytes)) sealed
          (omega (arith, length-zeros (padding_size bytes)))
          (Patch-Honest offset (offset + (bytes + 1 + padding_size bytes)) n
            (λ out. store_checksum out offset (bytes + 1 + padding_size bytes))
            (λ out. pure (out, n)) (omega arith)
            (store_checksum-Patch offset (bytes + 1 + padding_size bytes) (omega arith))
            (pure-Honest offset n n (omega arith)))))

pub encode_info_area-Honest :
    (clock : Clock) (offset atype : ℕ) (fru : Fru)
    → Honest (λ out. encode_info_area clock out offset atype fru) offset 3
unfolding encode_info_area
encode_info_area-Honest clock offset atype fru =
    let mandatory : List Field = fields fru (atype - fru_chassis_info) in
    let finish : Buffer × ℕ → Eff (Buffer × ℕ) = λ p. finish_area p.0 offset p.1 in
    let custom : Reclist → Buffer × ℕ → Eff (Buffer × ℕ) =
      λ cust p. encode_custom p.0 offset p.1 atype cust >>= finish in
    let with_custom : Buffer × ℕ → Eff (Buffer × ℕ) =
      λ p. get_customlist fru atype >>= λ cust. custom cust p in
    let filled : Buffer × ℕ → Eff (Buffer × ℕ) =
      λ p. encode_fields p.0 offset p.1 atype 0 mandatory >>= with_custom in
    seq-Honest offset offset 3 3 (λ out. encode_header clock out offset atype fru) filled
      (encode_header-Honest clock offset atype fru)
      (λ n big. (
        n,
        omega arith,
        big,
        seq-Honest offset offset n n (λ out. encode_fields out offset n atype 0 mandatory)
            with_custom (encode_fields-Honest offset n atype 0 mandatory)
            (λ n1 big1. (
              n1,
              omega arith,
              big1,
              effect-Honest offset n1 (get_customlist fru atype) (λ cust out. custom cust (out, n1))
                  (λ cust e e1 _.
                    seq-Honest offset offset n1 n1 (λ out. encode_custom out offset n1 atype cust)
                      finish (encode_custom-Honest offset n1 atype cust)
                      (λ n2 big2. (
                        n2 + padding_size n2 + 1,
                        omega arith,
                        omega arith,
                        finish_area-Honest offset n2 (omega arith),
                      ))),
            )),
      ))
