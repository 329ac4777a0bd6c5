-- ===== src/Cli/PrintMr.antt =====
-- print_mr_area and mr_raw_dump of frugen.c: one record of the multirecord area.
use frugen.Common.{
  ℕ, ◌-◌, true, false, Option, none, some, List, [], ◌∷◌, Bytes, codes, u8, ltb, leb, ◌==◌,
  get_elem?, get_or, if◌then◌else◌,
}
use frugen.Errno.{Eff, ◌>>=◌, pure, deref, undefined}
use frugen.Field.{FieldEnc, fe_empty, fe_text}
use frugen.Fru.{MrRec, MrBody, zeroed, mgmt, raw, fru_mr_mgmt_access, fru_mr_raw}
use frugen.Save.Record.{is_mgmt_subtype}
use frugen.Cli.{mr_mgmt_name}
use frugen.Cli.Items.{
  Item, octets, invalid_record, record_title, printable, mgmt_subtype, mgmt_data, not_supported,
  fhexstrdump,
}

abbrev pub standard_types : List Bytes
standard_types =
    codes "PSU Information"
    ∷ codes "DC Output"
    ∷ codes "DC Load"
    ∷ codes "Management Access Record"
    ∷ codes "Base Compatibility Record"
    ∷ codes "Extended Compatibility Record"
    ∷ codes "ASF Fixed SMBus Addresses"
    ∷ codes "ASF Lecacy-Device Alerts"
    ∷ codes "ASF Remote Control"
    ∷ codes "Extended DC Output"
    ∷ codes "Extended DC Load"
    ∷ codes "NVMe Information"
    ∷ codes "NVMe PCIe Port"
    ∷ codes "NVMe Topolgy"
    ∷ codes "NVMe Reserved"
    ∷ codes "NVMe Reserved"
    ∷ []

-- mr_type_names: the types between the standard and the OEM ones have a NULL pointer for a name.
unfoldable pub mr_type_names : ℕ → Option Bytes
mr_type_names mr_type =
    if ltb mr_type 0xc0
    then get_elem? standard_types mr_type
    else if leb mr_type 0xff
    then some (codes "OEM")
    else if mr_type == fru_mr_raw
    then some (codes "Unsupported (raw)")
    else none

-- The member `human` of frugen_mr_mgmt_name, by the index of the subtype.
abbrev pub mr_mgmt_human : List Bytes
mr_mgmt_human =
    codes "System URL"
    ∷ codes "System Name"
    ∷ codes "System Ping Address"
    ∷ codes "Component URL"
    ∷ codes "Component Name"
    ∷ codes "Component Ping Address"
    ∷ codes "System Unique ID"
    ∷ []

-- mr_raw_dump
unfoldable pub mr_raw_dump : FieldEnc → Bytes → Eff (List Item)
mr_raw_dump fe_text s = pure (printable s ∷ [])
mr_raw_dump enc s = do lines ← fhexstrdump (some s); pure (octets lines ∷ [])

-- The type that is shown: that of a raw record is in its body.
unfoldable pub shown_type : MrRec → Eff ℕ
shown_type rec = elim (rec.rec_type == fru_mr_raw) [
  | false ↦ pure rec.rec_type
  | true ↦ raw_type rec.body
]
  where
    raw_type : MrBody → Eff ℕ
    raw_type zeroed = pure 0
    raw_type (mgmt subtype text) = undefined
    raw_type (raw type_ enc text) = pure type_

unfoldable pub print_raw : MrBody → Eff (List Item)
print_raw zeroed = mr_raw_dump fe_empty []
print_raw (mgmt subtype text) = undefined
print_raw (raw type_ enc text) = mr_raw_dump enc text

abbrev pub mgmt_items : ℕ → Bytes → List Item
mgmt_items subtype text =
    (if is_mgmt_subtype subtype
      then mgmt_subtype subtype (get_or mr_mgmt_human (subtype - 1) [])
          (get_or mr_mgmt_name (subtype - 1) [])
      else mgmt_subtype subtype (codes "INVALID") (codes "-"))
    ∷ mgmt_data text
    ∷ []

unfoldable pub print_mgmt : MrBody → Eff (List Item)
print_mgmt zeroed = pure (mgmt_items 0 [])
print_mgmt (mgmt subtype text) = pure (mgmt_items subtype text)
print_mgmt (raw type_ enc text) = undefined

-- The switch of print_mr_area
unfoldable pub print_body : MrRec → Eff (List Item)
print_body rec = elim (rec.rec_type == fru_mr_raw) [
  | true ↦ print_raw rec.body
  | false ↦ elim (rec.rec_type == fru_mr_mgmt_access) [
    | true ↦ print_mgmt rec.body
    | false ↦ pure (not_supported ∷ [])
  ]
]

-- print_mr_area, with the record's number. To print a NULL name counts as undefined.
unfoldable pub print_mr_area : ℕ → MrRec → Eff (List Item)
print_mr_area number rec = do
  mr_type ← shown_type rec
  elim (leb mr_type 0xff) [
    | false ↦ pure (invalid_record number mr_type ∷ [])
    | true ↦ do
      name ← deref (mr_type_names mr_type)
      items ← print_body rec
      pure (record_title number name (u8 mr_type) (rec.rec_type == fru_mr_raw) ∷ items)
  ]
