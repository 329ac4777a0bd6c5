-- ===== src/Cli/Main.antt =====
-- main of frugen.c: the options in their order, the check of the result by the library's encoder
-- and decoder, and the choice of the output format. What getopt_long returns is a list of
-- options; the files that the options name and the C library's functions are a parameter.
use frugen.Common.{ℕ, Bool, true, false, Option, none, some, List, [], ◌∷◌, Bytes, codes, ℤ, take}
use frugen.Errno.{Eff, ◌>>=◌, pure, deref}
use frugen.Field.{Field}
use frugen.Fru.{Fru, init}
use frugen.Load.{Flags}
use frugen.Load.File.{Fetched, loadfile, loadbuffer}
use frugen.Save.{Buffer}
use frugen.Save.Area.{Clock}
use frugen.Save.File.{savebuffer}
use frugen.Json.{JsonC}
use frugen.Json.Load.{lang_english, loadfile_json}
use frugen.Cli.{same_string}
use frugen.Cli.FieldOpt.{arg_to_fieldopt}
use frugen.Cli.SetField.{Calendar, set_field, set_chassis_type, set_board_date, board_date_unspec}
use frugen.Cli.Uuid.{update_uuid}

-- frugen_format_t
pub data Format : Type 0 where
  fmt_unset fmt_json fmt_binary fmt_textout : Format

-- frugen_config_s: `ign_big` is the flag FRU_IGNBIG. The input format is set right before its use.
pub record Config : Type 0 where
  pub outformat : Format
  pub flags : Flags
  pub ign_big : Bool

-- FRU_NOFLAGS
abbrev pub no_flags : Flags
no_flags = record {
  ign_fver = false;
  ign_fhcksum = false;
  ign_aver = false;
  ign_rver = false;
  ign_acksum = false;
  ign_rhcksum = false;
  ign_rdcksum = false;
  ign_rnoeol = false;
  ign_aeof = false;
  ign_mrdatalen = false;
}

abbrev pub first_config : Config
first_config = record { outformat = fmt_binary; flags = no_flags; ign_big = false }

-- The options that change the configuration or the decoded FRU, with their arguments.
pub data Opt : Type 0 where
  debug_flag json_file raw_file out_format set_option : Bytes → Opt
  chassis_type board_date mr_uuid : Bytes → Opt
  date_unspec : Opt

-- The table `all_flags`. No code reads FRU_IGNFDCKSUM, the flag of "fdsum".
unfoldable pub all_flags : List (Bytes × (Config → Config))
all_flags =
    (codes "fver", λ c. record c { flags = record c.flags { ign_fver = true } })
    ∷ (codes "aver", λ c. record c { flags = record c.flags { ign_aver = true } })
    ∷ (codes "rver", λ c. record c { flags = record c.flags { ign_rver = true } })
    ∷ (codes "fhsum", λ c. record c { flags = record c.flags { ign_fhcksum = true } })
    ∷ (codes "fdsum", λ c. c)
    ∷ (codes "asum", λ c. record c { flags = record c.flags { ign_acksum = true } })
    ∷ (codes "rhsum", λ c. record c { flags = record c.flags { ign_rhcksum = true } })
    ∷ (codes "rdsum", λ c. record c { flags = record c.flags { ign_rdcksum = true } })
    ∷ (codes "rdlen", λ c. record c { flags = record c.flags { ign_mrdatalen = true } })
    ∷ (codes "aeof", λ c. record c { flags = record c.flags { ign_aeof = true } })
    ∷ (codes "reol", λ c. record c { flags = record c.flags { ign_rnoeol = true } })
    ∷ (codes "big", λ c. record c { ign_big = true })
    ∷ []

-- `case 'g'`: an unknown flag is passed over.
unfoldable pub set_flag : List (Bytes × (Config → Config)) → Bytes → Config → Config
set_flag [] optarg config = config
set_flag ((name, apply) ∷ flags) optarg config = elim (same_string name optarg) [
  | true ↦ apply config
  | false ↦ set_flag flags optarg config
]

-- `case 'o'`: the format of a name that is not in the table does not change.
unfoldable pub find_format : List (Bytes × Format) → Bytes → Format → Format
find_format [] optarg outformat = outformat
find_format ((name, format) ∷ formats) optarg outformat = elim (same_string optarg name) [
  | true ↦ format
  | false ↦ find_format formats optarg outformat
]

abbrev pub outfmt : List (Bytes × Format)
outfmt = (codes "json", fmt_json) ∷ (codes "binary", fmt_binary) ∷ (codes "text", fmt_textout) ∷ []

-- The format of the output: what would go to a terminal or a pipe in binary is written as JSON.
unfoldable pub output_format : Bytes → Format → Format
output_format fname fmt_binary = elim (same_string (codes "-") fname) [
  | true ↦ fmt_json
  | false ↦ fmt_binary
]
output_format fname format = format

-- What surrounds the program: the C library, json_object_from_file, the files, the clock, and
-- what an uninitialized field holds.
pub record World (json : JsonC) : Type 0 where
  pub atoi : Bytes → ℤ
  pub strtol : Bytes → ℕ → ℤ
  pub calendar : Calendar
  pub object_from_file : Bytes → Option json.Object
  pub file : Bytes → Fetched
  pub clock : Clock
  pub uninit : Field

module _ (json : JsonC) (world : World json) where
  -- One option. The configuration changes by the first two kinds only.
  unfoldable pub run_option : Opt → Config → Fru → Eff (Config × Fru)
  run_option (debug_flag optarg) config fru = pure (set_flag all_flags optarg config, fru)
  run_option (out_format optarg) config fru =
      pure (record config { outformat = find_format outfmt optarg config.outformat }, fru)
  run_option (json_file optarg) config fru = do
    fru' ← loadfile_json json world.calendar world.uninit (world.object_from_file optarg) fru
    pure (config, fru')
  run_option (raw_file optarg) config fru = do
    fru' ←
        loadfile true world.clock.datetime_base (some fru) (some (world.file optarg)) config.ign_big
          config.flags
    pure (config, fru')
  run_option (set_option optarg) config fru = do
    fieldopt ← arg_to_fieldopt world.atoi optarg
    fru' ← set_field true true fieldopt fru
    pure (config, fru')
  run_option (chassis_type optarg) config fru = do
    fru' ← set_chassis_type world.strtol optarg fru
    pure (config, fru')
  run_option (board_date optarg) config fru = do
    fru' ← set_board_date world.calendar optarg fru
    pure (config, fru')
  run_option date_unspec config fru = pure (config, board_date_unspec fru)
  run_option (mr_uuid optarg) config fru = do
    fru' ← update_uuid true true fru optarg
    pure (config, fru')

  unfoldable pub run_options : List Opt → Config → Fru → Eff (Config × Fru)
  run_options [] config fru = pure (config, fru)
  run_options (opt ∷ opts) config fru = do
    (config', fru') ← run_option opt config fru
    run_options opts config' fru'

  -- What the structure is set to before the options: 2 is SMBIOS_CHASSIS_UNKNOWN.
  unfoldable pub first_fru : Eff Fru
  first_fru = do
    fru ← init none true
    pure (record fru {
      chassis = record fru.chassis { chassis_type = 2 };
      board = record fru.board { board_lang = lang_english; tv_auto = true };
      product = record fru.product { product_lang = lang_english };
    })

  -- The pass through the encoder and the decoder.
  unfoldable pub decode_again : Fru → Buffer × ℕ → Eff Fru
  decode_again fru (out, fullsize) = do
    frubuf ← deref out
    decoded ← loadbuffer true world.clock.datetime_base none (some (take fullsize frubuf)) no_flags
    pure (record decoded {
      board = record decoded.board { tv = fru.board.tv; tv_auto = fru.board.tv_auto };
    })

  unfoldable pub validate : Fru → Eff Fru
  validate fru = do encoded ← savebuffer world.clock true none (some fru); decode_again fru encoded

  -- main, up to the output
  unfoldable pub prepare : List Opt → Eff (Config × Fru)
  prepare opts = do
    fru ← first_fru
    (config, changed) ← run_options opts first_config fru
    checked ← validate changed
    pure (config, checked)
