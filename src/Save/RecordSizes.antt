-- ===== src/Save/RecordSizes.antt =====
-- The encoders of multirecord records write as many bytes as they count.
use frugen.Common.{
  ℕ, suc, ◌+◌, ◌≤◌, ◌≡◌, ◌∙◌, if◌then◌else◌, refl, Bool, ◌||◌, List, [], ◌∷◌, Bytes, bit_or, length,
  take, drop, leb, ◌==◌, arith, Bool-cases, inl, inr, get_or, minus_one, to_int, pos, length-take,
}
use frugen.Errno.{
  FruErrno, Eff, fail, fault, bind_outcome, ◌>>=◌, pure, deref, guard, fe2big, fesize, femrmgmtbad,
  femrnotsup, fenorec, ferr_loc_mr,
}
use frugen.Hex.{hexstr2bin, hex_relaxed}
use frugen.Fru.{MrRec, MrBody, mgmt, raw, zeroed, fru_mr_mgmt_access, fru_mr_raw, fru_mr_type_count}
use frugen.Mr.{Entry}
use frugen.Custom.{calc_checksum}
use frugen.Save.{Buffer, blocks, bytes_of, write_out, splice, on_fail}
use frugen.Save.Record.{
  mr_blob2rec, mgmt_blob2rec, uuid2rec, swap_uuid, encode_mgmt, encode_mr_mgmt_record, raw_text,
  raw_binary, is_text, encode_mr_raw_record, seal_header, encode_rec, encode_mr_record, file_rec,
  header_checksum, mr_header_size, mrr_maxdata, mgmt_length_ok, mgmt_sys_uuid, is_mgmt_subtype,
  mr_eol,
}
use frugen.Save.Area.{encode_recs, encode_mr_area}
use frugen.Save.Write.{Honest, write_out_lem, read_out_lem, length-splice}
use frugen.Save.Honest.{
  weaken-Honest, pure-Honest, Patch, Patch-Honest, write-Honest, effect-Honest, on_fail-Honest,
  seq-Honest,
}

-- A call that fails or faults has no size to be wrong about.
fault-Honest : (offset least : ℕ) → Honest (λ out e. fault) offset least
fault-Honest offset least r e e' h = cc

fail-Honest :
    (offset least : ℕ) (failed : FruErrno → FruErrno)
    → Honest (λ out e. fail (failed e)) offset least
fail-Honest offset least failed r e e' h = cc

-- A record that is written in one piece.
rec-Honest :
    (offset n : ℕ) (bytes : Bytes)
    → length bytes ≡ n
    → 5 ≤ n
    → Honest (λ out. write_out out offset bytes >>= λ out'. pure (out', n)) offset 5
rec-Honest offset n bytes len header =
    weaken-Honest offset n 5 (λ out. write_out out offset bytes >>= λ out'. pure (out', n)) header
      (write-Honest offset offset n bytes (λ out'. pure (out', n)) (omega arith)
        (pure-Honest offset n n (omega arith)))

mr_blob2rec-Honest :
    (offset : ℕ) (blob : Bytes) (type_ : ℕ)
    → Honest (λ out. mr_blob2rec out offset blob type_) offset 5
unfolding mr_blob2rec
mr_blob2rec-Honest offset blob type_ =
    let write : Buffer → Eff (Buffer × ℕ) = λ out.
      write_out out offset (file_rec type_ blob 0) >>= λ out'.
      pure (out', mr_header_size + length blob) in
    effect-Honest offset 5 (guard (leb (length blob) mrr_maxdata) fe2big ferr_loc_mr minus_one)
      (λ _. write)
      (λ _ e e1 _.
        rec-Honest offset (mr_header_size + length blob) (file_rec type_ blob 0) (omega arith)
          (omega arith))

mgmt_blob2rec-Honest :
    (offset : ℕ) (blob : Bytes) (subtype : ℕ)
    → Honest (λ out. mgmt_blob2rec out offset blob subtype) offset 5
unfolding mgmt_blob2rec
mgmt_blob2rec-Honest offset blob subtype =
    effect-Honest offset 5
      (guard (mgmt_length_ok (length blob) subtype) fesize ferr_loc_mr minus_one)
      (λ _ out. mr_blob2rec out offset (subtype ∷ blob) fru_mr_mgmt_access)
      (λ _ e e1 _. mr_blob2rec-Honest offset (subtype ∷ blob) fru_mr_mgmt_access)

uuid2rec-Honest : (offset : ℕ) (str : Bytes) → Honest (λ out. uuid2rec out offset str) offset 5
unfolding uuid2rec
uuid2rec-Honest offset str =
    let store : Bytes → Buffer → Eff (Buffer × ℕ) =
      λ uuid out. mgmt_blob2rec out offset uuid mgmt_sys_uuid in
    let swap : Bytes → Buffer → Eff (Buffer × ℕ) =
      λ bytes out. swap_uuid bytes >>= λ uuid. store uuid out in
    effect-Honest offset 5
      (guard (length str == 36 || length str == 32) fesize ferr_loc_mr minus_one)
      (λ _ out. hexstr2bin hex_relaxed 16 str >>= λ bytes. swap bytes out)
      (λ _ e e1 _. effect-Honest offset 5 (hexstr2bin hex_relaxed 16 str) swap (λ bytes e2 e3 _.
        effect-Honest offset 5 (swap_uuid bytes) store
          (λ uuid e4 e5 _. mgmt_blob2rec-Honest offset uuid mgmt_sys_uuid)))

encode_mgmt-Honest :
    (offset subtype : ℕ) (text : Bytes)
    → Honest (λ out. encode_mgmt out offset subtype text) offset 5
unfolding encode_mgmt
encode_mgmt-Honest offset subtype text =
    let encode : Buffer → Eff (Buffer × ℕ) = λ out.
      if subtype == mgmt_sys_uuid
      then uuid2rec out offset text
      else mgmt_blob2rec out offset text subtype in
    effect-Honest offset 5 (guard (is_mgmt_subtype subtype) femrmgmtbad ferr_loc_mr minus_one)
      (λ _. encode)
      (λ _ e e1 _. elim (Bool-cases (subtype == mgmt_sys_uuid)) [
        | inl uuid ↦ rw uuid (uuid2rec-Honest offset text)
        | inr other ↦ rw other (mgmt_blob2rec-Honest offset text subtype)
      ])

encode_mr_mgmt_record-Honest :
    (offset : ℕ) (body : MrBody) → Honest (λ out. encode_mr_mgmt_record out offset body) offset 5
unfolding encode_mr_mgmt_record
encode_mr_mgmt_record-Honest offset (mgmt subtype text) = encode_mgmt-Honest offset subtype text
encode_mr_mgmt_record-Honest offset zeroed = encode_mgmt-Honest offset 0 []
encode_mr_mgmt_record-Honest offset (raw type_ enc text) = fault-Honest offset 5

-- Without a buffer the text's copy is undefined.
raw_text-Honest :
    (offset type_ : ℕ) (text : Bytes) → Honest (λ out. raw_text out offset type_ text) offset 5
unfolding raw_text
raw_text-Honest offset type_ text r e e' h = cc

raw_binary-Honest :
    (offset type_ : ℕ) (text : Bytes) → Honest (λ out. raw_binary out offset type_ text) offset 5
unfolding raw_binary
raw_binary-Honest offset type_ text =
    let store : Bytes → Buffer → Eff (Buffer × ℕ) = λ bytes out.
      write_out out offset (file_rec type_ bytes (header_checksum type_ bytes)) >>= λ out'.
      pure (out', mr_header_size + length bytes) in
    effect-Honest offset 5 (hexstr2bin hex_relaxed 0 text) store (λ bytes e e1 _.
      rec-Honest offset (mr_header_size + length bytes)
        (file_rec type_ bytes (header_checksum type_ bytes)) (omega arith) (omega arith))

encode_mr_raw_record-Honest :
    (offset : ℕ) (body : MrBody) → Honest (λ out. encode_mr_raw_record out offset body) offset 5
unfolding encode_mr_raw_record
encode_mr_raw_record-Honest offset (raw type_ enc text) = elim (Bool-cases (is_text enc)) [
  | inl is_raw ↦ rw is_raw (raw_text-Honest offset type_ text)
  | inr binary ↦ rw binary (raw_binary-Honest offset type_ text)
]
encode_mr_raw_record-Honest offset zeroed = raw_binary-Honest offset 0 []
encode_mr_raw_record-Honest offset (mgmt subtype text) = fault-Honest offset 5

encode_rec-Honest : (offset : ℕ) (rec : MrRec) → Honest (λ out. encode_rec out offset rec) offset 5
unfolding encode_rec
encode_rec-Honest offset rec = elim (Bool-cases (leb fru_mr_type_count rec.rec_type)) [
  | inl beyond ↦ rw beyond (fault-Honest offset 5)
  | inr inside ↦ rw inside (elim (Bool-cases (rec.rec_type == fru_mr_mgmt_access)) [
    | inl mgmt_rec ↦ rw mgmt_rec (encode_mr_mgmt_record-Honest offset rec.body)
    | inr other ↦ rw other (elim (Bool-cases (rec.rec_type == fru_mr_raw)) [
      | inl raw_rec ↦ rw raw_rec (encode_mr_raw_record-Honest offset rec.body)
      | inr neither ↦ rw neither (
          fail-Honest offset 5
            (λ e. record e { code = femrnotsup; src = ferr_loc_mr; index = minus_one }))
    ])
  ])
]

seal_header-Patch :
    (offset : ℕ) (last : Bool)
    → Patch (λ out. seal_header out offset last) (offset + mr_header_size)
unfolding seal_header
seal_header-Patch offset last = record {
  silent = λ e. refl;
  patches = λ buf e fits.
      let eol_ver : Bytes = take 1 (drop (offset + 1) buf) in
      let flags : Bytes = if last then bit_or (get_or eol_ver 0 0) mr_eol ∷ [] else eol_ver in
      let one : length flags ≤ 1 = elim (Bool-cases last) [
        | inl is_last ↦ rw is_last (omega arith)
        | inr more ↦ rw more (omega (arith, length-take 1 (drop (offset + 1) buf)))
      ] in
      let inside1 : (offset + 1) + length flags ≤ length buf = omega arith in
      let flagged : Bytes = splice buf (offset + 1) flags in
      let same1 = length-splice buf (offset + 1) flags inside1 in
      let sum : ℕ = calc_checksum (take 4 (drop offset flagged)) in
      let inside2 : (offset + 4) + length (sum ∷ []) ≤ length flagged = omega arith in
      (
        splice flagged (offset + 4) (sum ∷ []),
        rw (read_out_lem buf (offset + 1) 1 e (omega arith), bind_outcome)
            (rw (write_out_lem buf (offset + 1) flags e inside1, bind_outcome)
              (rw (read_out_lem flagged offset 4 e (omega arith), bind_outcome)
                (write_out_lem flagged (offset + 4) (sum ∷ []) e inside2))),
        length-splice flagged (offset + 4) (sum ∷ []) inside2 ∙ same1,
      );
}

encode_mr_record-Honest :
    (offset : ℕ) (rec : MrRec) (last : Bool)
    → Honest (λ out. encode_mr_record out offset rec last) offset 5
unfolding encode_mr_record
encode_mr_record-Honest offset rec last =
    seq-Honest offset offset 5 5 (λ out. encode_rec out offset rec)
      (λ p. seal_header p.0 offset last >>= λ sealed. pure (sealed, p.1))
      (encode_rec-Honest offset rec)
      (λ n big. (
        n,
        omega arith,
        big,
        Patch-Honest offset (offset + mr_header_size) n (λ out. seal_header out offset last)
            (λ sealed. pure (sealed, n)) (omega arith) (seal_header-Patch offset last)
            (pure-Honest offset n n (omega arith)),
      ))

encode_recs-Honest :
    (offset mr_size index : ℕ) (entries : List Entry)
    → Honest (λ out. encode_recs out offset mr_size index entries) offset mr_size
unfolding encode_recs
encode_recs-Honest offset mr_size index [] = pure-Honest offset mr_size mr_size (omega arith)
encode_recs-Honest offset mr_size index (entry ∷ rest) =
    let blame : FruErrno → FruErrno = λ e. record e { src = ferr_loc_mr; index = to_int index } in
    let one : MrRec → Buffer → Eff (Buffer × ℕ) =
      λ rec out. encode_mr_record out (offset + mr_size) rec (length rest == 0) in
    let next : Buffer × ℕ → Eff (Buffer × ℕ) =
      λ p. encode_recs p.0 offset (mr_size + p.1) (suc index) rest in
    effect-Honest offset mr_size (deref entry) (λ rec out. on_fail blame (one rec out) >>= next)
      (λ rec e e1 _.
        seq-Honest (offset + mr_size) offset 5 mr_size (λ out. on_fail blame (one rec out)) next
          (on_fail-Honest (offset + mr_size) 5 blame (one rec)
            (encode_mr_record-Honest (offset + mr_size) rec (length rest == 0)))
          (λ n big. (
            mr_size + n,
            omega arith,
            omega arith,
            encode_recs-Honest offset (mr_size + n) (suc index) rest,
          )))

pub encode_mr_area-Honest :
    (offset : ℕ) (entries : List Entry) → Honest (λ out. encode_mr_area out offset entries) offset 0
unfolding encode_mr_area
encode_mr_area-Honest offset [] =
    fail-Honest offset 0 (λ e. record e { code = fenorec; src = ferr_loc_mr; index = pos 0 })
encode_mr_area-Honest offset (entry ∷ rest) =
    seq-Honest offset offset 0 0 (λ out. encode_recs out offset 0 0 (entry ∷ rest))
      (λ p. pure (p.0, bytes_of (blocks p.1))) (encode_recs-Honest offset 0 0 (entry ∷ rest))
      (λ n big. (
        bytes_of (blocks n),
        omega arith,
        omega arith,
        pure-Honest offset (bytes_of (blocks n)) (bytes_of (blocks n)) (omega arith),
      ))
