-- ===== src/Load/FieldLoop.antt =====
-- The loop over the mandatory fields in encode_info_area, and the one in decode_info_area.
use frugen.Common.{
  ℕ, suc, ◌+◌, ◌≤◌, ◌≡◌, inl, refl, sym, ap, ◌∙◌, some, none, map, List, [], ◌∷◌, ◌++◌, Bytes,
  length, arith, low_bits, pos,
}
use mathlib.Core.Path.{subst}
use frugen.Errno.{FruErrno, Outcome, ok, bind-eq-ok}
use frugen.Field.{Field}
use frugen.Save.{Buffer, splice, on_fail}
use frugen.Fru.{Reclist}
use frugen.Custom.{custom_index}
use frugen.Save.Area.{add_field_to_area, encode_fields, encode_custom}
use frugen.Save.Write.{blamed-eq-ok, length-splice}
use frugen.Save.Region.{Agrees, Holds, splice-Holds, splice-Agrees}
use frugen.Load.Recoded.{
  Recoded, Written, add_field-Written, field_at_lem, HeldFields, held_nil, held_cons,
}

-- Two lists of fields of one length, the second read back from the first.
pub data AllRecoded : List Field → List Field → Type 0 where
  recoded_nil : AllRecoded [] []
  recoded_cons :
      {field outfield : Field} {fields outfields : List Field}
      → Recoded field outfield
      → AllRecoded fields outfields
      → AllRecoded (field ∷ fields) (outfield ∷ outfields)

-- What a loop of the encoder leaves: every image that has its bytes is decoded to the fields.
pub record LoopWritten (buf : Bytes) (offset bytes : ℕ) (fields : List Field) (r : Buffer × ℕ)
    : Type 0 where
  pub buf' : Bytes
  pub bytes' : ℕ
  pub outfields : List Field
  pub result : r ≡ (some buf', bytes')
  pub all : AllRecoded fields outfields
  pub grows : bytes ≤ bytes'
  pub same_length : length buf' ≡ length buf
  pub inside : offset + bytes ≤ length buf → offset + bytes' ≤ length buf
  pub kept : Agrees buf buf' 0 (offset + bytes)
  pub reads :
      (image : Bytes)
      → Agrees buf' image (offset + bytes) (offset + bytes')
      → HeldFields image (offset + bytes) outfields (offset + bytes')

module _ (buf : Bytes) (offset bytes : ℕ) (field : Field) (fields : List Field) (r1 r : Buffer × ℕ)
    (first : Written buf (offset + bytes) bytes field r1) where
  abbrev first_buf : Bytes
  first_buf = splice buf (offset + bytes) (first.typelen ∷ first.payload)

  abbrev first_end : ℕ
  first_end = bytes + (length first.payload + 1)

  module _ (rest : LoopWritten first_buf offset first_end fields r) where
    held :
        (image : Bytes)
        → Agrees rest.buf' image (offset + bytes) (offset + rest.bytes')
        → Holds image (offset + bytes) (first.typelen ∷ first.payload)
    held image same k h =
        let grows : bytes + (length first.payload + 1) ≤ rest.bytes' = rest.grows in
        same (offset + bytes + k) (omega arith) (omega arith)
        ∙ rest.kept (offset + bytes + k) (omega arith) (omega arith)
        ∙ splice-Holds buf (offset + bytes) (first.typelen ∷ first.payload)
            (omega (arith, first.fits)) k h

    read_first :
        (image : Bytes)
        → Agrees rest.buf' image (offset + bytes) (offset + rest.bytes')
        → HeldFields image (offset + bytes) (first.outfield ∷ rest.outfields) (offset + rest.bytes')
    read_first image same =
        let (behind, here) =
          field_at_lem image (offset + bytes) first.typelen first.payload (held image same) in
        let size : length first.payload ≡ low_bits first.typelen 6 = first.size in
        let next = rest.reads image (λ k above below. same k (omega arith) below) in
        let at : offset + (bytes + (length first.payload + 1))
            ≡ offset + bytes + (low_bits first.typelen 6 + 1) =
          omega arith in
        held_cons (record { typelen = first.typelen; payload = first.payload ++ behind })
          first.outfield here (first.decodes behind) first.goes_on
          (subst (λ k. HeldFields image k rest.outfields (offset + rest.bytes')) at next)

    step-LoopWritten : LoopWritten buf offset bytes (field ∷ fields) r
    step-LoopWritten = record {
      buf' = rest.buf';
      bytes' = rest.bytes';
      outfields = first.outfield ∷ rest.outfields;
      result = rest.result;
      all = recoded_cons first.recoded rest.all;
      grows = omega (arith, rest.grows);
      same_length =
          rest.same_length
          ∙ length-splice buf (offset + bytes) (first.typelen ∷ first.payload)
              (omega (arith, first.fits));
      inside = λ fits.
          let fits1 : offset + bytes + (length first.payload + 1) ≤ length buf = first.fits in
          let same =
            length-splice buf (offset + bytes) (first.typelen ∷ first.payload) (omega arith) in
          let below = rest.inside (omega arith) in omega arith;
      kept = λ k above below.
          rest.kept k above (omega arith)
          ∙ splice-Agrees buf (offset + bytes) (first.typelen ∷ first.payload) 0 (offset + bytes)
              (omega (arith, first.fits)) (inl (omega arith)) k above below;
      reads = read_first;
    }

-- What follows a call, at the result that the call has.
pub at_result :
    (k : Buffer × ℕ → Outcome (Buffer × ℕ)) (r s : Buffer × ℕ) {o : Outcome (Buffer × ℕ)}
    → r ≡ s
    → k r ≡ o
    → k s ≡ o
at_result k r s same h = sym (ap k same) ∙ h

nil-LoopWritten :
    (buf : Bytes) (offset bytes : ℕ) (r : Buffer × ℕ)
    → r ≡ (some buf, bytes)
    → LoopWritten buf offset bytes [] r
nil-LoopWritten buf offset bytes r h = record {
  buf' = buf;
  bytes' = bytes;
  outfields = [];
  result = h;
  all = recoded_nil;
  grows = omega arith;
  same_length = refl;
  inside = λ fits. fits;
  kept = λ k above below. refl;
  reads = λ image same. held_nil;
}

pub encode_fields-LoopWritten :
    (buf : Bytes) (offset bytes atype i : ℕ) (fields : List Field) (r : Buffer × ℕ)
    (e e' : FruErrno)
    → encode_fields (some buf) offset bytes atype i fields e ≡ ok r e'
    → LoopWritten buf offset bytes fields r
unfolding encode_fields
encode_fields-LoopWritten buf offset bytes atype i [] r e e' h =
    nil-LoopWritten buf offset bytes r (cc)
encode_fields-LoopWritten buf offset bytes atype i (field ∷ fields) r e e' h =
    let blame : FruErrno → FruErrno = λ e1. record e1 { src = atype; index = pos i } in
    let (r1, e1, added, more) =
      bind-eq-ok (on_fail blame (add_field_to_area (some buf) offset bytes field) e)
        (λ x. encode_fields x.0 offset x.1 atype (suc i) fields) h in
    let first : Written buf (offset + bytes) bytes field r1 =
      add_field-Written buf offset bytes field r1 e e1
        (blamed-eq-ok blame (add_field_to_area (some buf) offset bytes field e) added) in
    let buf1 : Bytes = splice buf (offset + bytes) (first.typelen ∷ first.payload) in
    let n : ℕ = bytes + (length first.payload + 1) in
    let more' : encode_fields (some buf1) offset n atype (suc i) fields e1 ≡ ok r e' =
      at_result (λ x. encode_fields x.0 offset x.1 atype (suc i) fields e1) r1 (some buf1, n)
        first.result more in
    let rest : LoopWritten buf1 offset n fields r =
      encode_fields-LoopWritten buf1 offset n atype (suc i) fields r e1 e' more' in
    step-LoopWritten buf offset bytes field fields r1 r first rest

-- The loop over the custom fields, none of which is NULL if it succeeds.
pub encode_custom-LoopWritten :
    (buf : Bytes) (offset bytes atype : ℕ) (cust : Reclist) (r : Buffer × ℕ) (e e' : FruErrno)
    → encode_custom (some buf) offset bytes atype cust e ≡ ok r e'
    → (fields : List Field) × (cust ≡ map some fields) × LoopWritten buf offset bytes fields r
unfolding encode_custom
encode_custom-LoopWritten buf offset bytes atype [] r e e' h =
    ([], refl, nil-LoopWritten buf offset bytes r (cc))
encode_custom-LoopWritten buf offset bytes atype (none ∷ cust) r e e' h = cc
encode_custom-LoopWritten buf offset bytes atype (some field ∷ cust) r e e' h =
    let blame : FruErrno → FruErrno =
      λ e1. record e1 { src = atype; index = custom_index atype 0 } in
    let (r1, e1, added, more) =
      bind-eq-ok (on_fail blame (add_field_to_area (some buf) offset bytes field) e)
        (λ x. encode_custom x.0 offset x.1 atype cust) h in
    let first : Written buf (offset + bytes) bytes field r1 =
      add_field-Written buf offset bytes field r1 e e1
        (blamed-eq-ok blame (add_field_to_area (some buf) offset bytes field e) added) in
    let buf1 : Bytes = splice buf (offset + bytes) (first.typelen ∷ first.payload) in
    let n : ℕ = bytes + (length first.payload + 1) in
    let more' : encode_custom (some buf1) offset n atype cust e1 ≡ ok r e' =
      at_result (λ x. encode_custom x.0 offset x.1 atype cust e1) r1 (some buf1, n) first.result
        more in
    let (fields, are, rest) = encode_custom-LoopWritten buf1 offset n atype cust r e1 e' more' in
    (
      field ∷ fields,
      ap (λ l. some field ∷ l) are,
      step-LoopWritten buf offset bytes field fields r1 r first rest,
    )
