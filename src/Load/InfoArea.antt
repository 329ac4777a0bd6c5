-- ===== src/Load/InfoArea.antt =====
-- An information area that encode_info_area writes is read back by decode_info_area.
use frugen.Common.{u8, get_or}
use frugen.Common.{
  ℕ, zero, suc, ◌+◌, ◌-◌, ◌≤◌, ◌<◌, ◌≡◌, refl, sym, ap, ◌∙◌, some, map, List, [], ◌∷◌, Bytes,
  length, arith, get_elem?, ℤ,
}
use mathlib.Core.Path.{subst}
use frugen.Errno.{FruErrno, Eff, ok, bind_outcome, bind-eq-ok, deref, ◌>>=◌}
use frugen.Field.{Field}
use frugen.Fru.{Fru, fields, fieldcount}
use frugen.Custom.Add.{custom_list, get_customlist_lem}
use frugen.Save.{Buffer, fru_ver, block_align}
use frugen.Save.Area.{
  Clock, encode_info_area, encode_header, encode_fields, encode_custom, finish_area, langtype,
}
use frugen.Save.Sizes.{area_size_lem}
use frugen.Load.{Flags}
use frugen.Load.Area.{decode_info_area, check_info_area}
use frugen.Load.Sealed.{finish_area-checked}
use frugen.Load.FieldLoop.{
  AllRecoded, recoded_nil, recoded_cons, LoopWritten, encode_fields-LoopWritten,
  encode_custom-LoopWritten, at_result,
}
use frugen.Load.Ends.{
  header_size, HeaderWritten, encode_header-HeaderWritten, AreaEnded, finish_area-AreaEnded,
}
use frugen.Load.Recoded.{HeldFields}
use frugen.Load.HeldLoop.{decode_fields-held, decode_custom_fields-held, keep_all}
use frugen.Load.Filled.{Untouched, Untouched-trans, set_fields_lem, decode_date_lem}

length-AllRecoded : (fs gs : List Field) → AllRecoded fs gs → length gs ≡ length fs
length-AllRecoded [] _ recoded_nil = refl
length-AllRecoded (f ∷ fs) _ (recoded_cons r all) = ap suc (length-AllRecoded fs _ all)

length-fields :
    (fru : Fru) (atype : ℕ)
    → 1 ≤ atype
    → atype ≤ 3
    → length (fields fru (atype - 1)) ≡ fieldcount atype
unfolding fields fieldcount
length-fields fru zero low high = absurd (omega arith)
length-fields fru (suc zero) low high = refl
length-fields fru (suc (suc zero)) low high = refl
length-fields fru (suc (suc (suc zero))) low high = refl
length-fields fru (suc (suc (suc (suc n)))) low high = absurd (omega arith)

low_byte : (n : ℕ) → u8 (u8 n) ≡ u8 n
low_byte n = omega arith

-- The parts of an area.
record AreaWritten (buf : Bytes) (offset atype : ℕ) (fru : Fru) (r : Buffer × ℕ) (e' : FruErrno)
    : Type 0 where
  pub r1 : Buffer × ℕ
  pub r2 : Buffer × ℕ
  pub r3 : Buffer × ℕ
  pub before : FruErrno
  pub customs : List Field
  pub are_customs : custom_list fru atype ≡ map some customs
  pub head : HeaderWritten buf offset atype fru r1
  pub loop : LoopWritten head.buf' offset (header_size atype) (fields fru (atype - 1)) r2
  pub rest : LoopWritten loop.buf' offset loop.bytes' customs r3
  pub ended : finish_area (some rest.buf') offset rest.bytes' before ≡ ok r e'

encode_info_area-AreaWritten :
    (clock : Clock) (buf : Bytes) (offset atype : ℕ) (fru : Fru) (r : Buffer × ℕ) (e e' : FruErrno)
    → 1 ≤ atype
    → atype ≤ 3
    → encode_info_area clock (some buf) offset atype fru e ≡ ok r e'
    → AreaWritten buf offset atype fru r e'
unfolding encode_info_area
encode_info_area-AreaWritten clock buf offset atype fru r e e' low high h =
    let mandatory = fields fru (atype - 1) in
    let (r1, e2, headed, h1) = bind-eq-ok (encode_header clock (some buf) offset atype fru e) _ h in
    let head : HeaderWritten buf offset atype fru r1 =
      encode_header-HeaderWritten clock buf offset atype fru r1 e e2 headed in
    let (r2, e3, filled, h2) =
      bind-eq-ok (encode_fields r1.0 offset r1.1 atype 0 mandatory e2) _ h1 in
    let n : ℕ = header_size atype in
    let filled' : encode_fields (some head.buf') offset n atype 0 mandatory e2 ≡ ok r2 e3 =
      at_result (λ x. encode_fields x.0 offset x.1 atype 0 mandatory e2) r1 (some head.buf', n)
        head.result filled in
    let loop : LoopWritten head.buf' offset n mandatory r2 =
      encode_fields-LoopWritten head.buf' offset n atype 0 mandatory r2 e2 e3 filled' in
    let finish : Buffer × ℕ → Eff (Buffer × ℕ) = λ x. finish_area x.0 offset x.1 in
    let cust = custom_list fru atype in
    let h3 : (encode_custom r2.0 offset r2.1 atype cust >>= finish) e3 ≡ ok r e' =
      rw (get_customlist_lem fru e3 atype low high, bind_outcome) at h2 in
    let (r3, e4, custom, h4) =
      bind-eq-ok (encode_custom r2.0 offset r2.1 atype cust e3) finish h3 in
    let custom' : encode_custom (some loop.buf') offset loop.bytes' atype cust e3 ≡ ok r3 e4 =
      at_result (λ x. encode_custom x.0 offset x.1 atype cust e3) r2 (some loop.buf', loop.bytes')
        loop.result custom in
    let (customs, are, rest) =
      encode_custom-LoopWritten loop.buf' offset loop.bytes' atype cust r3 e3 e4 custom' in
    record {
      r1 = r1;
      r2 = r2;
      r3 = r3;
      before = e4;
      customs = customs;
      are_customs = are;
      head = head;
      loop = loop;
      rest = rest;
      ended = at_result (λ x. finish x e4) r3 (some rest.buf', rest.bytes') rest.result h4;
    }

module _ (buf : Bytes) (offset atype : ℕ) (fru : Fru) (buf' : Bytes) (size : ℕ) (e' : FruErrno)
    (low : 1 ≤ atype) (high : atype ≤ 3) (small : size ≤ 2040)
    (area : AreaWritten buf offset atype fru (some buf', size) e') where
  abbrev middle : ℕ
  middle = area.loop.bytes'

  abbrev end : ℕ
  end = area.rest.bytes'

  abbrev header : ℕ
  header = header_size atype

  header_lem : (3 ≤ header) × (header ≤ 6)
  header_lem = ground arith

  grown : (header ≤ middle) × (middle ≤ end)
  grown = (area.loop.grows, area.rest.grows)

  ending : AreaEnded area.rest.buf' offset end buf' size
  ending =
      finish_area-AreaEnded area.rest.buf' offset end buf' size area.before e'
        (omega (arith, header_lem, grown)) area.ended

  size_lem : size ≡ block_align (end + 2)
  size_lem = omega (arith, ending.sized, (area_size_lem end).0)

  room : offset + size ≤ length buf'
  room = omega (arith, ending.sized, ending.inside, ending.same_length)

  version : get_elem? area.rest.buf' offset ≡ some fru_ver
  version =
      area.rest.kept offset (omega arith) (omega (arith, header_lem, grown))
      ∙ area.loop.kept offset (omega arith) (omega (arith, header_lem))
      ∙ area.head.version

  typed : get_elem? buf' (offset + 2) ≡ some (langtype fru (atype - 1))
  typed =
      ending.kept (offset + 2) (omega arith) (omega (arith, header_lem, grown))
      ∙ area.rest.kept (offset + 2) (omega arith) (omega (arith, header_lem, grown))
      ∙ area.loop.kept (offset + 2) (omega arith) (omega (arith, header_lem))
      ∙ area.head.typed

  checked :
      (limit : ℕ) (flags : Flags) (e1 : FruErrno)
      → size ≤ limit
      → check_info_area buf' atype offset limit flags e1 ≡ ok size e1
  checked limit flags e1 within =
      let (b, run, passed) =
        finish_area-checked area.rest.buf' offset end atype limit flags area.before e1
          (omega (arith, header_lem, grown)) (omega (arith, size_lem))
          (omega (arith, size_lem, ending.inside, ending.sized)) (omega (arith, size_lem))
          version in
      let whole = sym run ∙ area.ended in
      let is_buf' : b ≡ buf' = cc in
      subst (λ x. check_info_area x atype offset limit flags e1 ≡ ok size e1) is_buf'
        (passed ∙ ap (λ k. ok k e1) (sym size_lem))

  held : HeldFields buf' (offset + header) area.loop.outfields (offset + middle)
  held = area.loop.reads buf' (λ k above below.
      ending.kept k (omega (arith, header_lem)) (omega (arith, grown))
      ∙ area.rest.kept k (omega arith) below)

  held_customs : HeldFields buf' (offset + middle) area.rest.outfields (offset + end)
  held_customs =
      area.rest.reads buf' (λ k above below. ending.kept k (omega (arith, header_lem, grown)) below)

  decoded :
      (base : ℤ) (limit : ℕ) (flags : Flags) (fru0 : Fru) (e1 : FruErrno)
      → size ≤ limit
      → (fru' : Fru) × (decode_info_area buf' base atype offset limit flags fru0 e1
          ≡ keep_all atype area.rest.outfields fru' e1)
        × (fields fru' (atype - 1) ≡ area.loop.outfields)
        × (langtype fru' (atype - 1) ≡ langtype fru (atype - 1))
        × Untouched fru0 atype fru'
  unfolding decode_info_area
  decoded base limit flags fru0 e1 within =
      let value : ℕ = langtype fru (atype - 1) in
      let codes : List ℕ =
        fru.chassis.chassis_type ∷ fru.board.board_lang ∷ fru.product.product_lang ∷ [] in
      let (fru1, dated, is_value, kept) =
        decode_date_lem buf' base atype offset value fru0 e1 low high
          (omega (arith, room, size_lem, header_lem, grown)) in
      let outs = area.loop.outfields in
      let count : length outs ≡ fieldcount atype =
        length-AllRecoded (fields fru (atype - 1)) outs area.loop.all
        ∙ length-fields fru atype low high in
      let (fru2, stored, is_outs, is_value', kept') =
        set_fields_lem atype fru1 outs e1 low high count in
      let left : ℕ = size - header - ((offset + middle) - (offset + header)) in
      let some_left : (offset + end) - (offset + middle) < left =
        omega (arith, ending.sized, grown, header_lem) in
      let read = rw count at (decode_fields-held buf' atype held (size - header) 0 e1) in
      (
        fru2,
        rw (checked limit flags e1 within, bind_outcome)
            (rw (typed, bind_outcome, deref)
              (rw (dated, bind_outcome)
                (rw (read, bind_outcome)
                  (rw (stored, bind_outcome)
                    (decode_custom_fields-held buf' atype held_customs ending.terminated left flags
                      fru2 e1 some_left))))),
        is_outs,
        is_value' ∙ is_value ∙ low_byte (get_or codes (atype - 1) 0),
        Untouched-trans atype fru0 fru1 fru2 kept kept',
      )

-- When encode_info_area succeeds on an information area, with a size of at most 2040 bytes, then
-- none of the area's custom fields is NULL, and decode_info_area on the buffer that it leaves,
-- with any flags and a limit not below the size, passes all checks and sets no error of its own:
-- it stores the type of the chassis or the low byte of the language code that was encoded, and
-- for each mandatory field what fru__decode_field gives for what fru__encode_field gave for it,
-- and then adds what fru__decode_field gives for the custom fields, in their order; up to there
-- the custom fields of the area, the order of the areas and their presence are as they were.
pub encode_info_area-decode :
    (clock : Clock) (buf : Bytes) (offset atype limit : ℕ) (base : ℤ) (fru fru0 : Fru)
    (flags : Flags) (buf' : Bytes) (size : ℕ) (e e' e1 : FruErrno)
    → 1 ≤ atype
    → atype ≤ 3
    → encode_info_area clock (some buf) offset atype fru e ≡ ok (some buf', size) e'
    → size ≤ 2040
    → size ≤ limit
    → (customs outcustoms : List Field) × (fru' : Fru) × (custom_list fru atype ≡ map some customs)
      × AllRecoded customs outcustoms
      × AllRecoded (fields fru (atype - 1)) (fields fru' (atype - 1))
      × (langtype fru' (atype - 1) ≡ langtype fru (atype - 1))
      × Untouched fru0 atype fru'
      × (decode_info_area buf' base atype offset limit flags fru0 e1
          ≡ keep_all atype outcustoms fru' e1)
encode_info_area-decode clock buf offset atype limit base fru fru0 flags buf' size e e' e1 low high
      h small within =
    let area : AreaWritten buf offset atype fru (some buf', size) e' =
      encode_info_area-AreaWritten clock buf offset atype fru (some buf', size) e e' low high h in
    let (fru', run, is_outs, is_value, kept) =
      decoded buf offset atype fru buf' size e' low high small area base limit flags fru0 e1
        within in
    (
      area.customs,
      area.rest.outfields,
      fru',
      area.are_customs,
      area.rest.all,
      subst (λ outs. AllRecoded (fields fru (atype - 1)) outs) (sym is_outs) area.loop.all,
      is_value,
      kept,
      run,
    )
