-- ===== src/Cli/Sample.antt =====
-- A run of main of frugen.c on a command line of two options, with no files.
use frugen.Common.{none, false, ◌≡◌, refl, true, List, [], ◌∷◌, codes, pos}
use frugen.Errno.{ok, fru_errno_init}
use frugen.Field.{blank_field, fe_text}
use frugen.Fru.{Fru, fields, init, fieldcount, zeroed_fru}
use frugen.Cli.{same_string}
use frugen.Cli.SetField.{set_chassis_type}
use frugen.Custom.{try_enable, get_customlist, calc_checksum, sum_bytes}
use frugen.Area.{
  enable_area, enable, find_position, new_position, search_position, stops, improves, pick_position,
  place, shift_left, put,
}
use frugen.Save.File.{
  savebuffer, output_buffer, create_frufile, encode_areas, append_area, encode_area, seal_file,
}
use frugen.Save.{write_out, splice, read_out}
use frugen.Save.Area.{
  encode_info_area, encode_header, encode_fields, add_field_to_area, encode_custom, finish_area,
  store_checksum, encode_mr_area, encode_recs,
}
use frugen.Field.Encode.{
  encode_field, encode_string, encode_as, encode_text, copy_text, text_typelen, truncate, is_print,
  try_encs,
}
use frugen.Field.Decode.{read_data, decode_field, decode_as, decode_text, c_string}
use frugen.Save.Record.{
  encode_mr_record, encode_rec, encode_mr_mgmt_record, encode_mgmt, mgmt_blob2rec, mr_blob2rec,
  seal_header,
}
use frugen.Load.{find_fru_header, get_area_limit, closest_area}
use frugen.Load.Area.{
  decode_info_area, check_info_area, decode_date, decode_fields, set_fields, set_langtype,
  decode_custom_fields, custom_loop,
}
use frugen.Load.Order.{sort_areas_by_offset, sort_from, place_left, move_right}
use frugen.Json.{JsonC}
use frugen.Load.File.{not_opened, loadbuffer, load_areas, load_area, decode_area}
use frugen.Cli.Main.{
  World, Opt, Config, prepare, first_fru, run_options, run_option, validate, decode_again,
  find_format, set_flag, all_flags, first_config, fmt_textout,
}

abbrev pub no_json : JsonC
no_json = record {
  Object = Unit {0};
  object_get_ex = λ jso key. none;
  is_null = λ jso. true;
  get_string = λ jso. none;
  get_int = λ jso. (pos 0, true);
  is_array = λ jso. false;
  array_length = λ jso. 0;
  array_get_idx = λ jso i. tt;
  new_string = λ s. tt;
  new_int = λ n. tt;
  new_object = tt;
  new_array = tt;
  object_add = λ jso key v. tt;
  array_add = λ jso v. tt;
}

abbrev pub still_world : World no_json
still_world = record {
  atoi = λ s. pos 0;
  strtol = λ s base. pos 0x1c;
  calendar = record {
    scan = λ s. none;
    mktime = λ tm. pos 0;
    timezone = pos 0;
    strftime = λ t zone. [];
    new_byte = 0;
  };
  object_from_file = λ fname. none;
  file = λ fname. not_opened;
  clock = record {
    now = record { tv_sec = pos 0; tv_usec = pos 0 };
    timezone = pos 0;
    datetime_base = pos 820454400;
  };
  uninit = blank_field;
}

-- The command line `frugen --chassis-type 1c --out-format text`.
abbrev pub two_opts : List Opt
two_opts = Opt.chassis_type (codes "1c") ∷ Opt.out_format (codes "text") ∷ []

abbrev pub text_config : Config
text_config = record first_config { outformat = fmt_textout }

abbrev pub chassis_fru : Fru
chassis_fru = record zeroed_fru {
  present = false ∷ true ∷ false ∷ false ∷ false ∷ [];
  order = 0 ∷ 2 ∷ 3 ∷ 4 ∷ 1 ∷ [];
  chassis = record zeroed_fru.chassis {
    chassis_type = 0x1c;
    chassis_pn = record { enc = fe_text; val = [] };
    chassis_serial = record { enc = fe_text; val = [] };
  };
  board = record zeroed_fru.board { tv_auto = true };
}

-- The whole of `main` on that command line, up to the output.
pub prepared :
    prepare no_json still_world two_opts fru_errno_init
    ≡ ok (text_config, chassis_fru) fru_errno_init
unfolding prepare first_fru run_options run_option validate decode_again find_format set_flag
    all_flags set_chassis_type try_enable get_customlist calc_checksum sum_bytes enable_area enable
    find_position new_position search_position stops improves pick_position place shift_left put
    same_string init fields fieldcount savebuffer output_buffer create_frufile encode_areas
    append_area encode_area seal_file write_out splice read_out encode_info_area encode_header
    encode_fields add_field_to_area encode_custom finish_area store_checksum encode_mr_area
    encode_recs encode_field encode_string encode_as encode_text copy_text text_typelen truncate
    is_print try_encs read_data decode_field decode_as decode_text c_string encode_mr_record
    encode_rec encode_mr_mgmt_record encode_mgmt mgmt_blob2rec mr_blob2rec seal_header loadbuffer
    load_areas load_area decode_area find_fru_header get_area_limit closest_area decode_info_area
    check_info_area decode_date decode_fields set_fields set_langtype decode_custom_fields
    custom_loop sort_areas_by_offset sort_from place_left move_right
prepared = refl
