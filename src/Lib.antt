-- ===== src/Lib.antt =====
-- frugen is a command-line tool on libfru, a C library that encodes and decodes the FRU information
-- of the IPMI Platform Management FRU specification. An information area is a sequence of fields,
-- each of them a type/length byte and up to 63 data bytes in one of four encodings; the application
-- sees a field as an encoding and a C string.
--
-- The files, with the code that they model (paths from the root of the repository):
--   Errno: fru_errno.h, lib/fru_errno.c (fru_strerr in Errno/Text) and the macro fru__seterr of
--     lib/fru-private.h. The error that the library keeps in a thread-local variable is a state
--     that every call is given and returns (Eff). A call ends with a value, with a failure, or with
--     an access that C leaves undefined (Outcome); a failed `assert` counts as the last.
--   Hex: nibble2hex, fru__byte2hex and fru__decode_raw_binary of lib/fru_setfield_binary.c,
--     fru_hex2byte of lib/fru_common.c and fru__hexstr2bin of lib/fru_setfield.c.
--   Field: the types and macros of fru.h.in and lib/fru-private.h. Field/Decode is
--     lib/fru__decode.c and Field/Encode is lib/fru_setfield.c; Field/Binary is
--     fru_setfield_binary. The functions keep the names that they have in C, less the prefix. The
--     other children are proofs, named for what they prove.
--   Fru: fru_t and its areas (fru.h.in), lib/fru_init.c, lib/fru_getfield.c and fru_wipe of
--     lib/fru_common.c.
--   Area: lib/fru_enable_area.c, on the two arrays `present` and `order` of fru_t, which are lists
--     of five entries here; an access beyond them is a fault.
--   Custom: the record list and the checksum of lib/fru_common.c, and lib/fru_add_custom.c,
--     lib/fru_get_custom.c and lib/fru_delete_custom.c. A linked list is the list of its entries,
--     each of which may have a NULL record. Whether an allocation succeeds is an argument of the
--     call.
--   Internal: lib/fru_internal.c.
--   Mr: lib/fru_mr_ops.c and lib/fru_add_mr.c. Fru/Record has fru_mr_rec_t and its types.
--   Save: lib/fru_save.c. The output buffer is a list of bytes, or none for the NULL pointer with
--     which the encoders find the size only, and a pointer into the buffer is an offset; a write
--     beyond its end is a fault. Save/Record has the encoders of records, Save/Area those of areas,
--     Save/File the whole file; the clock, the time zone and fru__datetime_base are a parameter
--     (Clock), which is read once for both passes of fru_savebuffer. Save/Write, Save/Honest,
--     Save/Reads, Save/Region and Save/Sealing are about buffers, Save/Sizes, Save/RecordSizes and
--     Save/TwoPass about the encoders' two passes, and Save/Overflow about the internal use area.
--     Save/Store is fru_savefile, given what `open` and `write` return.
--   Load: lib/fru_load.c. The file's image is the list of its bytes, a pointer into it is an
--     offset, and a read beyond the image is a fault. Load has the header and the limits of areas,
--     Load/Area the decoders of areas, Load/Record those of records, Load/Order the sort of the
--     areas, and Load/File fru_loadbuffer and fru_loadfile; Load/Sealed, Load/Header, Load/Rounds,
--     Load/Order/Slots, Load/Order/Sort, Load/Frame, Load/Keeps, Load/KeepsRecords, Load/Loaded and
--     Load/Grouping are proofs, and so are Load/Recoded, Load/Ends, Load/FieldLoop, Load/HeldLoop,
--     Load/Filled, Load/InfoArea, Load/Survives, Load/Added, Load/Encodings and Load/Same, on an
--     area that is encoded and decoded; Load/Uuid is about a record that is encoded and decoded;
--     Load/Sample has test data. The flags are Booleans, and fru__datetime_base is an argument.
--   Json: frugen-json.c. json-c is a parameter, the record JsonC; a tree is a value, since the
--     program builds each object before it adds it to another one. Json has the loaders of fields,
--     Json/Load those of records and areas and frugen_loadfile_json, and Json/Store what
--     save_to_json_file builds. Json/Fields, Json/Records, Json/ProductLang, Json/LangKept and
--     Json/LangLoad are proofs; Json/Fields has the laws of json-c that it relies on (Laws).
--   Cli: frugen.h and frugen.c. Cli has the tables of names, Cli/FieldOpt arg_to_fieldopt,
--     Cli/SetField the options that set a field, the chassis type or the date, Cli/Uuid
--     frugen_update_uuid, Cli/Print, Cli/Items and Cli/PrintMr the loops that print, and Cli/Main
--     the sequence of options and the check behind it. Cli/Names, Cli/Cases, Cli/Parse, Cli/Assign,
--     Cli/Upsert, Cli/UpdateUuid, Cli/Dump and Cli/Listing are proofs. The functions of the C
--     library, the files and the clock are parameters (Calendar, World). `fatal` and `fru_fatal`
--     end the program, and are the failure of Eff.
--   Common: numbers, lists and bytes that the parts share.
--   The modules Tests have runs at examples; Cli/Sample is a run of main on two options.
--
-- A C string is the list of the bytes before its NUL; a number of a fixed width is a native number
-- with its wrap-around written out; `char` is signed, and characters are taken modulo 256. The
-- memory behind a field is a list that may end, and a read beyond it is a fault, as is a write
-- beyond the 63 data bytes of the buffer of an encoder. The loops are recursions on the text that
-- is left or, in the 6-bit decoder, the text encoder and the loops of Load, on the number of rounds
-- left, which the loop's own bound gives, since every round takes a byte or more of what is left;
-- what would happen when no round is left is an argument of the loop over the records. In Cli and
-- Json a loop over a list by an index has one round more than the list has entries, and
-- add_mr_area_json takes the number of its rounds as an argument. A call that the library makes on
-- a pointer to a structure is given the structure and returns the one that it leaves; one that may
-- fail after it has changed it returns both that structure and the truth value. A language code is
-- the 32 bits of its enum, of which an area in a file has the low byte. A string that no NUL ends
-- has no value here: the call that leaves one is undefined, where in C its first reader is; whether
-- the memory behind the hex string of the internal use area happens to be zero is an argument
-- (new_byte).
--
-- Not modelled: show_help, fru_perror, the layout of the printed text and the debug messages of
-- frugen.c; fru__free_reclist, which only frees memory; fru__datetime_base, which asks the C
-- library for the base of dates, and whose result is an argument; the output of a JSON tree to a
-- file, which json-c does.
pub mod Common
pub mod Errno
pub mod Hex
pub mod Field
pub mod Fru
pub mod Area
pub mod Custom
pub mod Internal
pub mod Cli
pub mod Json
pub mod Load
pub mod Mr
pub mod Save
