-- ===== src/Mr/Tests.antt =====
-- Witnesses of the theorems on the list of records.
use frugen.Mr.{delete_mr}
use frugen.Common.{none}
use frugen.Common.{◌≡◌, some, true, [], ◌∷◌, arith, set}
use frugen.Errno.{FruErrno, ok, fru_errno_init}
use frugen.Field.{fe_text}
use frugen.Fru.{Fru, MrRec, raw, zeroed, default_fru, fru_mr_raw, fru_mr_mgmt_access}
use frugen.Mr.{add_mr, get_mr, new_rec}
use frugen.Mr.Laws.{add_mr_get, add_mr_delete}

abbrev raw_rec : MrRec
raw_rec = record { rec_type = fru_mr_raw; body = raw 0xc0 fe_text [] }

abbrev mgmt_rec : MrRec
mgmt_rec = record { rec_type = fru_mr_mgmt_access; body = zeroed }

abbrev two_recs : Fru
two_recs = record default_fru {
  mr = some mgmt_rec ∷ some raw_rec ∷ [];
  present = set default_fru.present 4 true;
}

add_mr_get_example :
    (fru' : Fru) × (e' : FruErrno) × (add_mr true true
        (some two_recs)
        1
        (some raw_rec)
        fru_errno_init
      ≡ ok fru' fru_errno_init)
    × (get_mr (some fru') 1 fru_errno_init ≡ ok (some (new_rec (some raw_rec))) e')
add_mr_get_example = add_mr_get two_recs 1 (some raw_rec) fru_errno_init (omega arith) (omega arith)

add_mr_delete_example :
    (fru' : Fru) × (fru'' : Fru) × (e' : FruErrno) × (add_mr true true
        (some two_recs)
        2
        none
        fru_errno_init
      ≡ ok fru' fru_errno_init)
    × (delete_mr (some fru') 2 fru_errno_init ≡ ok fru'' e')
    × (fru''.mr ≡ two_recs.mr)
add_mr_delete_example = add_mr_delete two_recs 2 none fru_errno_init (omega arith) (omega arith)
