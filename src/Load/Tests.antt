-- ===== src/Load/Tests.antt =====
-- Witnesses of the theorems on loading.
use frugen.Errno.{pure}
use frugen.Errno.{undefined}
use frugen.Common.{
  ℕ, ◌-◌, map, codes, ◌≡◌, ◌≤◌, ◌+◌, refl, some, none, true, false, List, [], ◌∷◌, arith, Bytes,
  length, minus_one, pos,
}
use frugen.Errno.{ok, fru_errno_init}
use frugen.Field.{fe_text}
use frugen.Field.Decode.{decode_field, decode_as, decode_text, read_data, c_string}
use frugen.Custom.{calc_checksum, sum_bytes}
use frugen.Fru.{Fru, default_fru, fieldcount, fields}
use frugen.Custom.Add.{custom_list}
use frugen.Field.{Field}
use frugen.Save.Area.{langtype}
use frugen.Load.FieldLoop.{AllRecoded}
use frugen.Load.HeldLoop.{keep_all}
use frugen.Load.Filled.{Untouched}
use frugen.Load.InfoArea.{encode_info_area-decode}
use frugen.Area.{put}
use frugen.Area.Order.{WellFormed}
use frugen.Load.Grouping.{loadbuffer-WellFormed}
use frugen.Load.File.{loadbuffer, load_areas, load_area, decode_area}
use frugen.Fru.{zeroed_fru}
use frugen.Save.{read_out, zeros, fru_ver, block_align, bytes_of}
use frugen.Save.File.{seal_file}
use frugen.Save.Area.{finish_area}
use frugen.Load.{find_fru_header, get_area_limit, closest_area}
use frugen.Load.Area.{
  decode_info_area, decode_date, decode_fields, set_fields, set_langtype, decode_custom_fields,
  check_info_area, custom_loop,
}
use frugen.Load.Record.{mr_loop}
use frugen.Load.Order.{AreaOrder, sort_areas_by_offset, sort_from, place_left, move_right}
use frugen.Load.Order.Sort.{sort_areas_by_offset_lem, Ascending, with_offset}
use frugen.Load.Sealed.{finish_area-checked}
use frugen.Load.Header.{seal_file-find, get_area_limit-bounds}
use frugen.Load.Rounds.{mr_loop-rounds}
use frugen.Load.Sample.{strict, custom_chassis, chassis_area, clock, chassis_encoded}
use frugen.Load.Same.{encode_info_area-decode_same}
use frugen.Load.Uuid.{uuid_rec, encode_mr_record-decode_uuid}
use frugen.Save.Record.{encode_mr_record}
use frugen.Load.Record.{is_mr_rec_valid, decode_mr_record}
use frugen.Errno.{with_error, femrnotsup, ferr_loc_mr}
use frugen.Load.Survives.{Survives, text-Survives}
use frugen.Load.Encodings.{no_text-Survives, six_bit-Survives, bcdplus-Survives}
use frugen.Load.Sample.{chassis_customs}
use frugen.Field.Decode.{cut_tail}
use frugen.Area.Init.{default_WellFormed}
use frugen.Errno.{FruErrno}
use frugen.Common.{◌++◌, All}

-- A product area in front of a chassis area, and three that are not there.
abbrev areas : List AreaOrder
areas =
    record { type_ = 0; offset = 0 }
    ∷ record { type_ = 1; offset = 64 }
    ∷ record { type_ = 2; offset = 0 }
    ∷ record { type_ = 3; offset = 8 }
    ∷ record { type_ = 4; offset = 0 }
    ∷ []

sort_areas_by_offset_lem_example :
    (sorted : List AreaOrder) × (sort_areas_by_offset areas fru_errno_init
      ≡ ok sorted fru_errno_init)
    × Ascending sorted
    × (with_offset 0 sorted ≡ with_offset 0 areas)
sort_areas_by_offset_lem_example = sort_areas_by_offset_lem areas 0 fru_errno_init refl

-- A chassis area of five bytes: the header and two empty fields.
abbrev image : Bytes
image = fru_ver ∷ 0 ∷ 0x17 ∷ 0xc0 ∷ 0xc0 ∷ 7 ∷ 7 ∷ 7 ∷ []

finish_area-checked_example :
    (buf' : Bytes) × (finish_area (some image) 0 5 fru_errno_init
      ≡ ok (some buf', block_align (5 + 2)) fru_errno_init)
    × (check_info_area buf' 1 0 8 strict fru_errno_init ≡ ok (block_align (5 + 2)) fru_errno_init)
finish_area-checked_example =
    finish_area-checked image 0 5 1 8 strict fru_errno_init fru_errno_init (omega arith)
      (omega arith) (omega arith) (omega arith) refl

seal_file-find_example :
    (buf' : Bytes) × (seal_file (some (0 ∷ 0 ∷ 1 ∷ 0 ∷ 4 ∷ 0 ∷ 0 ∷ 0 ∷ image)) fru_errno_init
      ≡ ok (some buf') fru_errno_init)
    × (find_fru_header buf' strict fru_errno_init ≡ ok tt fru_errno_init)
seal_file-find_example =
    seal_file-find 0 0 1 0 4 0 image strict fru_errno_init fru_errno_init (omega arith)

-- A file with a chassis area at 8 and a product area at 32.
abbrev file : Bytes
file = 1 ∷ 0 ∷ 1 ∷ 0 ∷ 4 ∷ 0 ∷ 0 ∷ 0xfa ∷ zeros 40

get_area_limit-bounds_example :
    (limit : ℕ) × (get_area_limit file 1 fru_errno_init ≡ ok limit fru_errno_init)
    × (1 ≤ limit)
    × (bytes_of 1 + limit ≤ length file)
get_area_limit-bounds_example =
    get_area_limit-bounds file 1 1 fru_errno_init
      (
        (0, refl, omega arith),
        (
          (1, refl, omega arith),
          ((0, refl, omega arith), ((4, refl, omega arith), ((0, refl, omega arith), tt))),
        ),
      )
      refl (omega arith)

mr_loop-rounds_example :
    mr_loop undefined file default_fru 0 40 minus_one strict 41 fru_errno_init
    ≡ mr_loop (pure (default_fru, pos 0)) file default_fru 0 40 minus_one strict 100 fru_errno_init
mr_loop-rounds_example =
    mr_loop-rounds undefined (pure (default_fru, pos 0)) file default_fru 0 40 minus_one strict 41
      100 fru_errno_init (omega arith) (omega arith)

-- A file with a chassis area of one block, behind the header.
abbrev chassis_file : Bytes
chassis_file = 1 ∷ 0 ∷ 1 ∷ 0 ∷ 0 ∷ 0 ∷ 0 ∷ 0xfe ∷ 1 ∷ 1 ∷ 0x17 ∷ 0xc0 ∷ 0xc0 ∷ 0xc1 ∷ 0 ∷ 0xa6 ∷ []

abbrev chassis_fru : Fru
chassis_fru = record zeroed_fru {
  present = false ∷ true ∷ false ∷ false ∷ false ∷ [];
  order = 0 ∷ 2 ∷ 3 ∷ 4 ∷ 1 ∷ [];
  chassis = record zeroed_fru.chassis {
    chassis_type = 0x17;
    chassis_pn = record { enc = fe_text; val = [] };
    chassis_serial = record { enc = fe_text; val = [] };
  };
}

chassis_loaded :
    loadbuffer true (pos 820454400) none (some chassis_file) strict fru_errno_init
    ≡ ok chassis_fru fru_errno_init
unfolding loadbuffer find_fru_header load_areas load_area get_area_limit closest_area decode_area
    decode_info_area check_info_area decode_date decode_fields set_fields set_langtype
    decode_custom_fields custom_loop sort_areas_by_offset sort_from place_left move_right put
    read_out calc_checksum sum_bytes fieldcount decode_field decode_as decode_text read_data
    c_string
chassis_loaded = refl

loadbuffer-WellFormed_example : WellFormed chassis_fru
loadbuffer-WellFormed_example =
    loadbuffer-WellFormed true (pos 820454400) none (some chassis_file) strict chassis_fru
      fru_errno_init fru_errno_init tt chassis_loaded

-- An image of 48 bytes whose header points to a product area at 64: the limit of the chassis area
-- at 8 reaches beyond the image.
abbrev beyond_file : Bytes
beyond_file = 1 ∷ 0 ∷ 1 ∷ 0 ∷ 8 ∷ 0 ∷ 0 ∷ 0xf6 ∷ zeros 40

limit_beyond : get_area_limit beyond_file 1 fru_errno_init ≡ ok 56 fru_errno_init
unfolding get_area_limit closest_area
limit_beyond = refl

encode_info_area-decode_example :
    (customs outcustoms : List Field) × (fru' : Fru) × (custom_list custom_chassis 1
      ≡ map some customs)
    × AllRecoded customs outcustoms
    × AllRecoded (fields custom_chassis (1 - 1)) (fields fru' (1 - 1))
    × (langtype fru' (1 - 1) ≡ langtype custom_chassis (1 - 1))
    × Untouched zeroed_fru 1 fru'
    × (decode_info_area chassis_area (pos 820454400) 1 0 16 strict zeroed_fru fru_errno_init
        ≡ keep_all 1 outcustoms fru' fru_errno_init)
encode_info_area-decode_example =
    encode_info_area-decode clock (zeros 16) 0 1 16 (pos 820454400) custom_chassis zeroed_fru strict
      chassis_area 16 fru_errno_init fru_errno_init fru_errno_init (omega arith) (omega arith)
      chassis_encoded (omega arith) (omega arith)

custom_chassis-Survives : All Survives (fields custom_chassis 0)
unfolding fields
custom_chassis-Survives =
    (text-Survives (codes "AB") (omega arith) (omega arith) (omega arith), (no_text-Survives, tt))

chassis_customs-Survives : All Survives chassis_customs
unfolding cut_tail
chassis_customs-Survives = (
  six_bit-Survives (codes "ABC") (cc) (omega arith) (omega arith) (omega arith) refl,
  (bcdplus-Survives (codes "12") (cc) (omega arith) refl (omega arith) refl, tt),
)

encode_info_area-decode_same_example :
    (fru' : Fru) × (e2 : FruErrno) × (decode_info_area chassis_area
        (pos 820454400)
        1
        0
        16
        strict
        default_fru
        fru_errno_init
      ≡ ok fru' e2)
    × (fields fru' (1 - 1) ≡ fields custom_chassis (1 - 1))
    × (langtype fru' (1 - 1) ≡ langtype custom_chassis (1 - 1))
    × (custom_list fru' 1 ≡ custom_list default_fru 1 ++ custom_list custom_chassis 1)
    × WellFormed fru'
encode_info_area-decode_same_example =
    encode_info_area-decode_same clock (zeros 16) 0 1 16 (pos 820454400) custom_chassis default_fru
      chassis_customs strict chassis_area 16 fru_errno_init fru_errno_init fru_errno_init
      (omega arith) (omega arith) chassis_encoded (omega arith) (omega arith) refl
      custom_chassis-Survives chassis_customs-Survives default_WellFormed (omega arith)

abbrev sample_uuid : Bytes
sample_uuid = 0 ∷ 1 ∷ 2 ∷ 3 ∷ 4 ∷ 5 ∷ 6 ∷ 7 ∷ 8 ∷ 9 ∷ 10 ∷ 11 ∷ 12 ∷ 13 ∷ 14 ∷ 15 ∷ []

encode_mr_record-decode_uuid_example :
    (buf' : Bytes) × (encode_mr_record
        (some (zeros 24))
        1
        (uuid_rec sample_uuid)
        true
        fru_errno_init
      ≡ ok (some buf', 22) fru_errno_init)
    × (is_mr_rec_valid buf' 1 23 strict fru_errno_init ≡ ok tt fru_errno_init)
    × (decode_mr_record buf' 1 strict fru_errno_init
        ≡ ok (uuid_rec sample_uuid) (with_error femrnotsup ferr_loc_mr minus_one fru_errno_init))
encode_mr_record-decode_uuid_example =
    encode_mr_record-decode_uuid (zeros 24) 1 23 sample_uuid true strict fru_errno_init
      fru_errno_init (omega arith) (omega arith) (omega arith) (omega arith)
