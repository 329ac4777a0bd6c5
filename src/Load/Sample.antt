-- ===== src/Load/Sample.antt =====
-- Test data of the theorems on loading.
use frugen.Common.{codes, ◌≡◌, refl, some, false, [], ◌∷◌, Bytes, pos}
use frugen.Errno.{ok, fru_errno_init}
use frugen.Field.{fe_text}
use frugen.Field.Decode.{read_data}
use frugen.Custom.{calc_checksum, sum_bytes}
use frugen.Fru.{Fru, default_fru, fields}
use frugen.Custom.{get_customlist}
use frugen.Field.Encode.{
  encode_field, encode_string, encode_as, encode_text, copy_text, text_typelen, truncate, is_print,
  try_encs,
}
use frugen.Save.{write_out, splice}
use frugen.Save.Area.{
  Clock, encode_info_area, encode_header, encode_fields, add_field_to_area, encode_custom,
  store_checksum,
}
use frugen.Save.{read_out, zeros, fru_ver}
use frugen.Save.Area.{finish_area}
use frugen.Load.{Flags}
use frugen.Common.{List, map}
use frugen.Field.{Field, fe_6bitascii, fe_bcdplus}
use frugen.Field.Encode.{
  encode_6bit, six_value, pack, encode_bcdplus, bcd_pack, bcd_value, in_buffer,
}

abbrev pub strict : Flags
strict = record {
  ign_fver = false;
  ign_fhcksum = false;
  ign_aver = false;
  ign_rver = false;
  ign_acksum = false;
  ign_rhcksum = false;
  ign_rdcksum = false;
  ign_rnoeol = false;
  ign_aeof = false;
  ign_mrdatalen = false;
}

-- The custom fields of a chassis, three characters of 6-bit ASCII and two digits.
abbrev pub chassis_customs : List Field
chassis_customs =
    record { enc = fe_6bitascii; val = codes "ABC" }
    ∷ record { enc = fe_bcdplus; val = codes "12" }
    ∷ []

-- A chassis with a text, an empty field and the custom ones.
abbrev pub custom_chassis : Fru
custom_chassis = record default_fru {
  chassis = record default_fru.chassis {
    chassis_type = 0x17;
    chassis_pn = record { enc = fe_text; val = codes "AB" };
    chassis_serial = record { enc = fe_text; val = [] };
    chassis_cust = map some chassis_customs;
  };
}

abbrev pub chassis_area : Bytes
chassis_area =
    fru_ver ∷ 2 ∷ 0x17 ∷ 0xc2 ∷ 0x41 ∷ 0x42 ∷ 0xc0 ∷ 0x83 ∷ 0xa1 ∷ 0x38 ∷ 2 ∷ 0x41 ∷ 0x12 ∷ 0xc1 ∷ 0
    ∷ 0x6f ∷ []

abbrev pub clock : Clock
clock = record {
  now = record { tv_sec = pos 0; tv_usec = pos 0 };
  timezone = pos 0;
  datetime_base = pos 820454400;
}

pub chassis_encoded :
    encode_info_area clock (some (zeros 16)) 0 1 custom_chassis fru_errno_init
    ≡ ok (some chassis_area, 16) fru_errno_init
unfolding encode_6bit six_value pack encode_bcdplus bcd_pack bcd_value in_buffer encode_info_area
    encode_header write_out splice read_out encode_fields fields add_field_to_area encode_field
    encode_string encode_as encode_text copy_text text_typelen truncate is_print read_data
    get_customlist encode_custom finish_area store_checksum try_encs calc_checksum sum_bytes
chassis_encoded = refl
