-- ===== src/Cli/Uuid.antt =====
-- frugen_update_uuid of frugen.c, the option `--mr-uuid`.
use frugen.Common.{ℕ, zero, suc, Bool, true, false, Option, none, some, Bytes, ◌==◌, length, take}
use frugen.Errno.{Eff, ◌>>=◌, pure, deref, undefined}
use frugen.Fru.{Fru, MrRec, MrBody, zeroed, mgmt, raw, fru_mr_mgmt_access}
use frugen.Mr.{Entry, find_mr, add_mr, replace_mr}
use frugen.Save.Record.{mgmt_sys_uuid, mgmt_maxdata}
use frugen.Cli.{or_null, list_tail}

-- The record that is added: strncpy copies as much of the string as `data` has place for.
unfoldable pub uuid_rec : Bytes → MrRec
uuid_rec s = record {
  rec_type = fru_mr_mgmt_access;
  body = mgmt mgmt_sys_uuid (take mgmt_maxdata s);
}

-- `old_mr->mgmt.subtype`. A management record's union holds its `mgmt` member.
unfoldable pub subtype_of : MrBody → Eff ℕ
subtype_of zeroed = pure 0
subtype_of (mgmt subtype text) = pure subtype
subtype_of (raw type_ enc text) = undefined

-- The result of fru_find_mr, with the index that it stores.
unfoldable pub find_mgmt : Fru → ℕ → Eff (Option (ℕ × Entry))
find_mgmt fru index e = or_null (find_mr (some fru) fru_mr_mgmt_access (some index) e)

-- The loop, with the rounds left: the index of the old UUID record, or none. That the rounds are
-- used up counts as undefined.
unfoldable pub search_uuid : ℕ → Fru → ℕ → Eff (Option ℕ)
search_uuid zero fru index = undefined
search_uuid (suc n) fru index = do
  found ← find_mgmt fru index
  elim found [
    | none ↦ pure none
    | some (at, entry) ↦ do
      old_mr ← deref entry
      subtype ← subtype_of old_mr.body
      elim (subtype == mgmt_sys_uuid) [ true ↦ pure (some at) | false ↦ search_uuid n fru (suc at) ]
  ]

-- frugen_update_uuid. Each round goes on behind the record that it has found, so one round more
-- than the list has records is enough.
unfoldable pub update_uuid : Bool → Bool → Fru → Bytes → Eff Fru
update_uuid entry_allocated rec_allocated fru s = do
  old ← search_uuid (suc (length fru.mr)) fru 0
  elim old [
    | none ↦ add_mr entry_allocated rec_allocated (some fru) list_tail (some (uuid_rec s))
    | some index ↦ replace_mr (some fru) index (some (uuid_rec s))
  ]
