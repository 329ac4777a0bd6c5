-- ===== src/Custom/Tests.antt =====
-- Runs on custom fields, and the witnesses of their theorems.
use frugen.Common.{◌≡◌, refl, none, some, true, arith}
use frugen.Errno.{FruErrno, ok, fru_errno_init}
use frugen.Field.{fe_empty, blank_field}
use frugen.Fru.{Fru, default_fru}
use frugen.Area.Init.{default_WellFormed}
use frugen.Custom.{new_field, add_custom, get_custom, delete_custom}
use frugen.Custom.Add.{custom_list}
use frugen.Custom.Laws.{add_custom_get, add_custom_delete}

empty_field : new_field 2 0 fe_empty none fru_errno_init ≡ ok blank_field fru_errno_init
unfolding new_field
empty_field = refl

add_custom_get_example :
    (fru' : Fru) × (e' : FruErrno) × (add_custom true true
        (some default_fru)
        2
        0
        fe_empty
        none
        fru_errno_init
      ≡ ok (fru', true) e')
    × (get_custom (some fru') 2 0 e' ≡ ok (some blank_field) e')
add_custom_get_example =
    add_custom_get default_fru 2 0 fe_empty none blank_field fru_errno_init fru_errno_init
      (omega arith) (omega arith) default_WellFormed empty_field (omega arith)

add_custom_delete_example :
    (fru' : Fru) × (fru'' : Fru) × (e' : FruErrno) × (add_custom true true
        (some default_fru)
        2
        0
        fe_empty
        none
        fru_errno_init
      ≡ ok (fru', true) e')
    × (delete_custom (some fru') 2 0 e' ≡ ok fru'' e')
    × (custom_list fru'' 2 ≡ custom_list default_fru 2)
add_custom_delete_example =
    add_custom_delete default_fru 2 0 fe_empty none blank_field fru_errno_init fru_errno_init
      (omega arith) (omega arith) default_WellFormed empty_field (omega arith) (omega arith)
