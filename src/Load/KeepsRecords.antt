-- ===== src/Load/KeepsRecords.antt =====
-- The decoder of the multirecord area changes the presence flag of that area at most.
use frugen.Errno.{undefined}
use frugen.Common.{
  ℕ, zero, suc, ◌+◌, ◌-◌, true, Option, some, none, List, [], ◌∷◌, Bytes, ℤ, pos, negsuc, minus_one,
  leb, Bool-cases, inl, inr,
}
use frugen.Errno.{
  FruErrno, Outcome, Eff, ok, fail, fault, ◌>>=◌, clearerr, fenotempty, fail_with, ferr_loc_mr,
}
use frugen.Fru.{Fru, MrRec, fru_mr}
use frugen.Area.{put}
use frugen.Mr.{Entry, add_mr, link_rec, new_rec}
use frugen.Save.Record.{mr_eol}
use frugen.Load.{Flags, byte_at}
use frugen.Load.Area.{fru_list_tail}
use frugen.Load.Record.{
  rec_size, is_mr_rec_valid, decode_mr_record, fill_last, next_count, mr_loop, refuse_negative,
  decode_mr_area,
}
use frugen.Load.Frame.{
  AllOk, map-AllOk, bind-AllOk, next-AllOk, Only-refl, Only-trans, Keeps, put-AllOk,
}

add_mr-AllOk :
    (fru : Fru) (index : ℕ) (rec : Option MrRec) (e : FruErrno)
    → AllOk (Keeps fru_mr fru) (add_mr true true (some fru) index rec e)
unfolding add_mr
add_mr-AllOk fru index rec e =
    let P : Fru → Type 0 = Keeps fru_mr fru in
    next-AllOk P (link_rec true fru.mr index (some (new_rec rec)) e) _ (λ mr' e1.
      bind-AllOk _ P (put fru.present fru_mr true e1) _ (put-AllOk fru.present fru_mr e1)
        (λ present' e2 h. h.0))

on_result-AllOk :
    {A B : Type 0} (P : B → Type 0) (o : Outcome A) (failed : FruErrno → Outcome B)
    (next : A → Eff B)
    → ((e : FruErrno) → AllOk P (failed e))
    → ((a : A) (e : FruErrno) → AllOk P (next a e))
    → AllOk P (elim o [ ok a e' ↦ next a e' | fail e' ↦ failed e' | fault ↦ fault ])
on_result-AllOk P (ok a e) failed next hf hn = hn a e
on_result-AllOk P (fail e) failed next hf hn = hf e
on_result-AllOk P fault failed next hf hn = tt

mr_loop-AllOk :
    (image : Bytes) (fru : Fru) (offset limit : ℕ) (count : ℤ) (flags : Flags) (n : ℕ)
    (e : FruErrno)
    → AllOk (λ r. Keeps fru_mr fru r.0) (mr_loop undefined image fru offset limit count flags n e)
unfolding mr_loop
mr_loop-AllOk image fru offset limit count flags zero e = tt
mr_loop-AllOk image fru offset limit count flags (suc n) e =
    let P : Fru × ℤ → Type 0 = λ r. Keeps fru_mr fru r.0 in
    next-AllOk P (rec_size image offset e) _ (λ rec_sz e1.
      on_result-AllOk P (is_mr_rec_valid image offset limit flags e1) _ _
        (λ e2. Only-refl fru_mr fru.present)
        (λ u e2.
          bind-AllOk (Keeps fru_mr fru) P (add_mr true true (some fru) fru_list_tail none e2) _
            (add_mr-AllOk fru fru_list_tail none e2)
            (λ added e3 kept.
              on_result-AllOk P (decode_mr_record image offset flags e3) _ _ (λ e4. kept)
                (λ rec e4. next-AllOk P (byte_at image (offset + 1) e4) _ (λ eol_ver e5.
                  let fru' : Fru = record added { mr = fill_last added.mr rec } in
                  elim (Bool-cases (leb mr_eol eol_ver)) [
                    | inl ends ↦ rw ends kept
                    | inr goes_on ↦ rw goes_on (
                        map-AllOk (λ r. Keeps fru_mr fru' r.0) P _
                          (mr_loop-AllOk image fru' (offset + rec_sz) (limit - rec_sz)
                            (next_count count) flags n e5)
                          (λ r h. Only-trans fru_mr fru.present fru'.present r.0.present kept h))
                  ])))))

refuse_negative-AllOk :
    (fru : Fru) (r : Fru × ℤ) (e : FruErrno)
    → Keeps fru_mr fru r.0
    → AllOk (Keeps fru_mr fru) (refuse_negative r e)
unfolding refuse_negative
refuse_negative-AllOk fru (fru', pos n) e h = h
refuse_negative-AllOk fru (fru', negsuc n) e h = tt

pub decode_mr_area-AllOk :
    (image : Bytes) (offset limit : ℕ) (flags : Flags) (fru : Fru) (e : FruErrno)
    → AllOk (Keeps fru_mr fru) (decode_mr_area image offset limit flags fru e)
unfolding decode_mr_area
decode_mr_area-AllOk image offset limit flags fru e =
    next-AllOk (Keeps fru_mr fru) (clearerr e) _ (λ _ e1. by_list fru.mr e1)
  where
    by_list :
        (mr : List Entry) (e1 : FruErrno)
        → AllOk (Keeps fru_mr fru) (
            (elim mr as (λ _. Eff Fru) [
              | entry ∷ rest ↦ fail_with fenotempty ferr_loc_mr minus_one
              | [] ↦
                  mr_loop undefined image fru offset limit minus_one flags (suc limit)
                  >>= refuse_negative
            ])
              e1)
    by_list (entry ∷ rest) e1 = tt
    by_list [] e1 =
        bind-AllOk (λ r. Keeps fru_mr fru r.0) (Keeps fru_mr fru)
          (mr_loop undefined image fru offset limit minus_one flags (suc limit) e1) refuse_negative
          (mr_loop-AllOk image fru offset limit minus_one flags (suc limit) e1)
          (λ r e2 h. refuse_negative-AllOk fru r e2 h)
