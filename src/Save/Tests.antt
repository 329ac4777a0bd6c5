-- ===== src/Save/Tests.antt =====
-- Witnesses of the theorems on saving.
use frugen.Common.{
  take, ◌++◌, ◌-◌, inl, ◌≡◌, refl, none, some, true, false, [], ◌∷◌, arith, Bytes, length, pos,
}
use frugen.Errno.{ok, fault, fru_errno_init}
use frugen.Field.{fe_text}
use frugen.Field.Decode.{read_data}
use frugen.Field.Encode.{
  encode_field, encode_string, encode_as, encode_text, copy_text, text_typelen, truncate, is_print,
  try_encs,
}
use frugen.Hex.{hexstr2bin, hex_relaxed, write_hex, decode_raw_binary}
use frugen.Hex.Convert.{hexstr2bin-decode_raw_binary}
use frugen.Save.Overflow.{encode_iu_area-overflow}
use frugen.Fru.{Fru, mgmt, default_fru, fields, fru_chassis_info, fru_mr, fru_mr_mgmt_access}
use frugen.Area.{put}
use frugen.Custom.{get_customlist}
use frugen.Save.{zeros, write_out}
use frugen.Save.Record.{
  encode_mr_record, encode_rec, encode_mr_mgmt_record, encode_mgmt, mgmt_blob2rec, mr_blob2rec,
  seal_header,
}
use frugen.Save.Area.{encode_iu_area}
use frugen.Save.Area.{
  Clock, encode_info_area, encode_header, encode_fields, add_field_to_area, encode_custom,
  finish_area, store_checksum, encode_mr_area, encode_recs,
}
use frugen.Save.File.{create_frufile, encode_areas, append_area, encode_area, seal_file, savebuffer}
use frugen.Save.Store.{write_loop, wrote, write_loop_short}
use frugen.Save.TwoPass.{create_frufile-exact, savebuffer-exact}

abbrev clock : Clock
clock = record {
  now = record { tv_sec = pos 1700000000; tv_usec = pos 0 };
  timezone = pos 0;
  datetime_base = pos 820454400;
}

-- A FRU with a chassis area, and a multirecord area with one management record.
abbrev sample : Fru
sample = record default_fru {
  present = false ∷ true ∷ false ∷ false ∷ true ∷ [];
  order = 0 ∷ 2 ∷ 3 ∷ fru_chassis_info ∷ fru_mr ∷ [];
  chassis = record default_fru.chassis {
    chassis_pn = record { enc = fe_text; val = 97 ∷ 98 ∷ [] };
  };
  mr =
      some (record {
        rec_type = fru_mr_mgmt_access;
        body = mgmt 2 (97 ∷ 98 ∷ 99 ∷ 100 ∷ 101 ∷ 102 ∷ 103 ∷ 104 ∷ []);
      })
      ∷ [];
}

sample_size : create_frufile clock none sample fru_errno_init ≡ ok (none, 40) fru_errno_init
unfolding create_frufile encode_areas put append_area encode_area encode_info_area encode_header
    write_out encode_fields fields add_field_to_area encode_field encode_string encode_as
    encode_text copy_text text_typelen truncate is_print read_data get_customlist encode_custom
    finish_area store_checksum seal_file encode_mr_area encode_recs encode_mr_record encode_rec
    encode_mr_mgmt_record encode_mgmt mgmt_blob2rec mr_blob2rec seal_header try_encs
sample_size = refl

create_frufile-exact_example :
    (buf' : Bytes) × (create_frufile clock (some (zeros 40)) sample fru_errno_init
      ≡ ok (some buf', 40) fru_errno_init)
    × (length buf' ≡ length (zeros 40))
create_frufile-exact_example =
    create_frufile-exact clock sample 40 (zeros 40) fru_errno_init fru_errno_init refl refl
      sample_size (omega arith)

savebuffer-exact_example :
    (buf : Bytes) × (savebuffer clock true none (some sample) fru_errno_init
      ≡ ok (some buf, 40) fru_errno_init)
    × (length buf ≡ 40)
savebuffer-exact_example =
    savebuffer-exact clock sample 40 fru_errno_init fru_errno_init fru_errno_init refl refl
      sample_size sample_size

abbrev two_bytes : Bytes
two_bytes = 0x13 ∷ 0x37 ∷ []

abbrev internal_fru : Fru
internal_fru = record default_fru { internal = some (write_hex two_bytes) }

two_bytes_decoded :
    hexstr2bin hex_relaxed 0 (write_hex two_bytes) fru_errno_init ≡ ok two_bytes fru_errno_init
unfolding decode_raw_binary
two_bytes_decoded =
    hexstr2bin-decode_raw_binary hex_relaxed 0 5 two_bytes fru_errno_init (omega arith)
      (omega arith) (inl refl)

encode_iu_area-overflow_example :
    encode_iu_area (some (zeros 16)) 8 internal_fru fru_errno_init ≡ fault
encode_iu_area-overflow_example =
    encode_iu_area-overflow (zeros 16) 8 internal_fru (write_hex two_bytes) two_bytes fru_errno_init
      fru_errno_init refl two_bytes_decoded (omega arith)

write_loop_short_example :
    write_loop (wrote 1 ∷ wrote (2 - 1) ∷ []) two_bytes 0 [] fru_errno_init
    ≡ ok (some (take 1 two_bytes ++ take (2 - 1) two_bytes)) fru_errno_init
write_loop_short_example = write_loop_short two_bytes 1 fru_errno_init (omega arith)
