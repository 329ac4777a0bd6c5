-- ===== src/Load/Recoded.antt =====
-- A field that encode_info_area writes is read back by decode_info_area.
use frugen.Common.{
  ℕ, suc, ◌+◌, ◌≤◌, ◌≡◌, inl, inr, sym, ap, ◌∙◌, some, List, [], ◌∷◌, ◌++◌, Bytes, length, drop,
  take, get_elem?, arith, low_bits, ◌==◌, ◌≢◌, length-take, take-drop, ltb, false, Bool-cases,
}
use frugen.Errno.{FruErrno, Eff, ok, bind_outcome, bind-eq-ok, ◌>>=◌, pure}
use frugen.Field.{Field, FileField, field_terminator}
use frugen.Field.Decode.{read_data, decode_field}
use frugen.Field.Encode.{encode_field}
use frugen.Field.Safety.{decode_field_safe}
use frugen.Field.Limits.{encode_field-ne-terminator}
use frugen.Field.Prefix.{decode_field_more}
use frugen.Save.{Buffer, splice, write_out}
use frugen.Save.Area.{add_field_to_area}
use frugen.Save.Reads.{get_elem?-drop, drop-behind}
use frugen.Save.Region.{Holds, drop-Holds, write_out-eq-ok}
use frugen.Load.Area.{field_at, field_size}

-- The field that fru__decode_field gives for what fru__encode_field gives.
pub record Recoded (field outfield : Field) : Type 0 where
  pub encoded : FileField
  pub before : FruErrno
  pub after : FruErrno
  pub encodes : encode_field field.enc (some field.val) before ≡ ok encoded after
  pub decodes : (e : FruErrno) → decode_field (some encoded) e ≡ ok outfield e

-- What read_data gives.
read_data-take :
    (f : FileField) (p : Bytes) (e : FruErrno) {e' : FruErrno}
    → read_data f e ≡ ok p e'
    → (p ≡ take (low_bits f.typelen 6) f.payload) × (low_bits f.typelen 6 ≤ length f.payload)
unfolding read_data
read_data-take f p e h = elim (Bool-cases (ltb (length f.payload) (low_bits f.typelen 6))) [
  | inl short ↦ let stuck = rw short at h in cc
  | inr enough ↦ let run = rw enough at h in (cc, ground arith)
]

-- A field that is written.
pub record Written (buf : Bytes) (at n : ℕ) (field : Field) (r : Buffer × ℕ) : Type 0 where
  pub typelen : ℕ
  pub payload : Bytes
  pub outfield : Field
  pub size : length payload ≡ low_bits typelen 6
  pub fits : at + (length payload + 1) ≤ length buf
  pub result : r ≡ (some (splice buf at (typelen ∷ payload)), n + (length payload + 1))
  pub recoded : Recoded field outfield
  pub goes_on : (typelen == field_terminator) ≡ false
  pub decodes :
      (rest : Bytes) (e : FruErrno)
      → decode_field (some (record { typelen = typelen; payload = payload ++ rest })) e
        ≡ ok outfield e

not_terminator : (t : ℕ) → t ≢ field_terminator → (t == field_terminator) ≡ false
not_terminator t ne = ground arith

pub add_field-Written :
    (buf : Bytes) (offset bytes : ℕ) (field : Field) (r : Buffer × ℕ) (e e' : FruErrno)
    → add_field_to_area (some buf) offset bytes field e ≡ ok r e'
    → Written buf (offset + bytes) bytes field r
unfolding add_field_to_area
add_field-Written buf offset bytes field r e e' h =
    let copy : FileField → Eff (Buffer × ℕ) = λ f. read_data f >>= λ payload.
    write_out (some buf) (offset + bytes) (f.typelen ∷ payload) >>= λ out'.
    pure (out', bytes + (low_bits f.typelen 6 + 1)) in
    let (f, e2, encodes, copied) = bind-eq-ok (encode_field field.enc (some field.val) _) copy h in
    let (p, e3, read, written) =
      bind-eq-ok (read_data f e2)
        (λ payload. write_out (some buf) (offset + bytes) (f.typelen ∷ payload) >>= λ out'.
          pure (out', bytes + (low_bits f.typelen 6 + 1)))
        copied in
    let (out, e4, wrote, done) =
      bind-eq-ok (write_out (some buf) (offset + bytes) (f.typelen ∷ p) e3)
        (λ out'. pure (out', bytes + (low_bits f.typelen 6 + 1))) written in
    let (fits, is_out, same) = write_out-eq-ok buf (offset + bytes) (f.typelen ∷ p) e3 wrote in
    let (is_p, enough) = read_data-take f p e2 read in
    let n : ℕ = low_bits f.typelen 6 in
    let size : length p ≡ n = ap length is_p ∙ omega (arith, length-take n f.payload) in
    let (d, decoded, _, _) =
      decode_field_safe (record { typelen = f.typelen; payload = p }) e (omega arith) in
    let is_r : (out, bytes + (n + 1)) ≡ r = cc in
    let more =
      λ (rest : Bytes) (e1 : FruErrno). decode_field_more f.typelen p rest d e1 e size decoded in
    let whole : p ++ drop n f.payload ≡ f.payload =
      ap (λ q. q ++ drop n f.payload) is_p ∙ take-drop n f.payload in
    record {
      typelen = f.typelen;
      payload = p;
      outfield = d;
      size = size;
      fits = omega arith;
      result = sym is_r ∙ (λ i. (is_out i, bytes + (sym size i + 1)));
      goes_on =
          not_terminator f.typelen
            (encode_field-ne-terminator field.enc (some field.val) _ e2 f encodes);
      recoded = record {
        encoded = f;
        before = _;
        after = e2;
        encodes = encodes;
        decodes = λ e1. rw whole at (more (drop n f.payload) e1);
      };
      decodes = more;
    }

-- The field that a buffer holds at an offset.
pub field_at_lem :
    (image : Bytes) (at t : ℕ) (p : Bytes)
    → Holds image at (t ∷ p)
    → (rest : Bytes) × ((e : FruErrno)
        → field_at image at e ≡ ok (record { typelen = t; payload = p ++ rest }) e)
field_at_lem image at t p holds =
    let (rest, begins) = drop-Holds image at (t ∷ p) holds in
    let here : get_elem? image at ≡ some t =
      sym (get_elem?-drop at image at 0 (omega arith)) ∙ ap (λ xs. get_elem? xs 0) begins in
    let behind : drop (suc at) image ≡ p ++ rest = drop-behind at image t (p ++ rest) begins in
    (
      rest,
      λ e. rw (here, bind_outcome) (ap (λ q. ok (record { typelen = t; payload = q }) e) behind),
    )

-- The fields that an image holds from an offset on, up to another one.
pub data HeldFields (image : Bytes) : ℕ → List Field → ℕ → Type 0 where
  held_nil : {at : ℕ} → HeldFields image at [] at
  held_cons :
      {at end : ℕ} {outfields : List Field} (f : FileField) (outfield : Field)
      → ((e : FruErrno) → field_at image at e ≡ ok f e)
      → ((e : FruErrno) → decode_field (some f) e ≡ ok outfield e)
      → (f.typelen == field_terminator) ≡ false
      → HeldFields image (at + field_size f) outfields end
      → HeldFields image at (outfield ∷ outfields) end
