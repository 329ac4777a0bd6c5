-- ===== src/Save/TwoPass.antt =====
-- create_frufile without a buffer, and then with one.
use frugen.Common.{get_or}
use frugen.Common.{
  ℕ, suc, ◌+◌, ◌≤◌, ◌<◌, ◌≡◌, ◌∙◌, sym, ap, refl, Bool, true, false, not, Option, some, none, List,
  [], ◌∷◌, Bytes, u8, length, take, drop, leb, ◌==◌, arith, Bool-cases, inl, inr, get_elem?,
  get_elem?-lt, minus_one,
}
use frugen.Errno.{
  FruErrno, Eff, ok, fail, with_error, bind_outcome, ◌>>=◌, pure, deref, guard, feareadup, fe2small,
  ferr_loc_general,
}
use frugen.Fru.{Fru, fru_internal_use, fru_mr}
use frugen.Area.{put, apos_max}
use frugen.Custom.{calc_checksum}
use frugen.Save.{Buffer, blocks, zeros, splice, write_out}
use frugen.Save.Area.{Clock, encode_info_area}
use frugen.Save.File.{
  file_header_size, encode_area, append_area, encode_areas, seal_file, create_frufile, savebuffer,
  output_buffer, with_ver,
}
use frugen.Save.Write.{Honest, write_out_lem, read_out_lem, length-splice}
use frugen.Save.Honest.{
  weaken-Honest, pure-Honest, Patch, Patch-Honest, write-Honest, effect-Honest, seq-Honest,
}
use frugen.Save.Sizes.{length-zeros, encode_info_area-Honest}
use frugen.Save.RecordSizes.{encode_mr_area-Honest}

encode_area-Honest :
    (clock : Clock) (offset atype : ℕ) (fru : Fru)
    → (atype == fru_internal_use) ≡ false
    → Honest (λ out. encode_area clock out offset atype fru) offset 0
unfolding encode_area
encode_area-Honest clock offset atype fru other = rw other (elim (Bool-cases (atype == fru_mr)) [
  | inl mr ↦ rw mr (encode_mr_area-Honest offset fru.mr)
  | inr info ↦ rw info (
      weaken-Honest offset 3 0 (λ out. encode_info_area clock out offset atype fru) (omega arith)
        (encode_info_area-Honest clock offset atype fru))
])

append_area-Honest :
    (clock : Clock) (totalsize atype : ℕ) (fru : Fru)
    → (atype == fru_internal_use) ≡ false
    → atype + 2 ≤ totalsize
    → Honest (λ out. append_area clock out totalsize atype fru) 0 totalsize
unfolding append_area
append_area-Honest clock totalsize atype fru other header =
    seq-Honest totalsize 0 0 totalsize (λ out. encode_area clock out totalsize atype fru)
      (λ p. write_out p.0 (1 + atype) (u8 (blocks totalsize) ∷ []) >>= λ out.
        pure (out, totalsize + p.1))
      (encode_area-Honest clock totalsize atype fru other)
      (λ n big. (
        totalsize + n,
        omega arith,
        omega arith,
        write-Honest 0 (1 + atype) (totalsize + n) (u8 (blocks totalsize) ∷ [])
            (λ out. pure (out, totalsize + n)) (omega arith)
            (pure-Honest 0 (totalsize + n) (totalsize + n) (omega arith)),
      ))

seal_file-Patch : Patch seal_file file_header_size
unfolding seal_file
seal_file-Patch = record {
  silent = λ e. refl;
  patches = λ buf e fits.
      let ver : ℕ = with_ver (get_or (take 1 (drop 0 buf)) 0 0) in
      let inside1 : 0 + length (ver ∷ []) ≤ length buf = omega arith in
      let versioned : Bytes = splice buf 0 (ver ∷ []) in
      let same1 = length-splice buf 0 (ver ∷ []) inside1 in
      let sum : ℕ = calc_checksum (take file_header_size (drop 0 versioned)) in
      let inside2 : 7 + length (sum ∷ []) ≤ length versioned = omega arith in
      (
        splice versioned 7 (sum ∷ []),
        rw
            (
              read_out_lem buf 0 1 e (omega arith),
              bind_outcome,
              write_out_lem buf 0 (ver ∷ []) e inside1,
            )
            (rw (read_out_lem versioned 0 file_header_size e (omega arith), bind_outcome)
              (write_out_lem versioned 7 (sum ∷ []) e inside2)),
        length-splice versioned 7 (sum ∷ []) inside2 ∙ same1,
      );
}

-- An area that is present is not the internal use area, and its number is in range.
present_lem :
    (present : List Bool) (atype : ℕ) (e e1 : FruErrno)
    → length present ≡ suc apos_max
    → get_elem? present fru_internal_use ≡ some false
    → deref (get_elem? present atype) e ≡ ok true e1
    → ((atype == fru_internal_use) ≡ false) × (atype < suc apos_max)
present_lem present atype e e1 size off h =
    let at : get_elem? present atype ≡ some true = deref-eq-ok (get_elem? present atype) h in
    let inside = get_elem?-lt present atype at in
    (
      elim (Bool-cases (atype == fru_internal_use)) [
        | inl same ↦
            let is_zero : atype ≡ fru_internal_use = ground arith in
            let both : get_elem? present atype ≡ some false = rw is_zero off in cc
        | inr other ↦ other
      ],
      omega arith,
    )
  where
    deref-eq-ok : (o : Option Bool) → deref o e ≡ ok true e1 → o ≡ some true
    deref-eq-ok none h = cc
    deref-eq-ok (some b) h = cc

module _ (clock : Clock) (fru : Fru) (size : length fru.present ≡ suc apos_max)
    (off : get_elem? fru.present fru_internal_use ≡ some false) where
  encode_areas-Honest :
      (totalsize : ℕ) (processed : List Bool) (order : List ℕ)
      → file_header_size ≤ totalsize
      → Honest (λ out. encode_areas clock out totalsize processed order fru) 0 totalsize
  unfolding encode_areas
  encode_areas-Honest totalsize processed [] header =
      pure-Honest 0 totalsize totalsize (omega arith)
  encode_areas-Honest totalsize processed (atype ∷ order) header =
      let skip : List Bool → Buffer → Eff (Buffer × ℕ) =
        λ marked out. encode_areas clock out totalsize marked order fru in
      let append : List Bool → Buffer → Eff (Buffer × ℕ) = λ marked out.
        append_area clock out totalsize atype fru >>= λ p.
        encode_areas clock p.0 p.1 marked order fru in
      let choose : List Bool → Bool → Buffer → Eff (Buffer × ℕ) =
        λ marked here out. elim here [ false ↦ skip marked out | true ↦ append marked out ] in
      let choose-Honest : (marked : List Bool) (here : Bool) (e e1 : FruErrno)
          → deref (get_elem? fru.present atype) e ≡ ok here e1
          → Honest (choose marked here) 0 totalsize =
        λ marked here.
          elim here
            as (λ b.
              (e e1 : FruErrno)
              → deref (get_elem? fru.present atype) e ≡ ok b e1
              → Honest (choose marked b) 0 totalsize) [
                | false ↦ λ e e1 eq. encode_areas-Honest totalsize marked order header
                | true ↦ λ e e1 eq.
                    let (other, inside) = present_lem fru.present atype e e1 size off eq in
                    seq-Honest 0 0 totalsize totalsize
                      (λ out. append_area clock out totalsize atype fru)
                      (λ p. encode_areas clock p.0 p.1 marked order fru)
                      (append_area-Honest clock totalsize atype fru other (omega arith))
                      (λ n big.
                        (n, omega arith, big, encode_areas-Honest n marked order (omega arith)))
              ] in
      let look : List Bool → Buffer → Eff (Buffer × ℕ) =
        λ marked out. deref (get_elem? fru.present atype) >>= λ here. choose marked here out in
      let mark : Bool → Buffer → Eff (Buffer × ℕ) =
        λ seen out. put processed atype true >>= λ marked. look marked out in
      effect-Honest 0 totalsize (deref (get_elem? processed atype))
        (λ seen out. guard (not seen) feareadup atype minus_one >>= λ _. mark seen out)
        (λ seen e e1 _.
          effect-Honest 0 totalsize (guard (not seen) feareadup atype minus_one) (λ _. mark seen)
            (λ _ e2 e3 _.
              effect-Honest 0 totalsize (put processed atype true) look (λ marked e4 e5 _.
                effect-Honest 0 totalsize (deref (get_elem? fru.present atype)) (choose marked)
                  (λ here e6 e7 eq. choose-Honest marked here e6 e7 eq))))

  create_frufile-Honest : Honest (λ out. create_frufile clock out fru) 0 file_header_size
  unfolding create_frufile
  create_frufile-Honest =
      let none_yet : List Bool = false ∷ false ∷ false ∷ false ∷ false ∷ [] in
      seq-Honest 0 0 file_header_size file_header_size
        (λ out. encode_areas clock out file_header_size none_yet fru.order fru)
        (λ p. seal_file p.0 >>= λ sealed. pure (sealed, p.1))
        (encode_areas-Honest file_header_size none_yet fru.order (omega arith))
        (λ n big. (
          n,
          omega arith,
          big,
          Patch-Honest 0 file_header_size n seal_file (λ sealed. pure (sealed, n)) (omega arith)
              seal_file-Patch (pure-Honest 0 n n (omega arith)),
        ))

-- With five presence flags and the internal use area not present, if create_frufile finds a size
-- without a buffer, then with any buffer of that size or more it succeeds with the same size and
-- the same error state, and neither writes nor reads outside the buffer, whose length stays.
pub create_frufile-exact :
    (clock : Clock) (fru : Fru) (n : ℕ) (buf : Bytes) (e e' : FruErrno)
    → length fru.present ≡ suc apos_max
    → get_elem? fru.present fru_internal_use ≡ some false
    → create_frufile clock none fru e ≡ ok (none, n) e'
    → n ≤ length buf
    → (buf' : Bytes) × (create_frufile clock (some buf) fru e ≡ ok (some buf', n) e')
      × (length buf' ≡ length buf)
create_frufile-exact clock fru n buf e e' size off h room =
    let (n', is_n, big, sized) = create_frufile-Honest clock fru size off (none, n) e e' h in
    let same : n ≡ n' = ap (λ p. p.1) is_n in
    let (buf', eq, len) = sized.writes buf (omega arith) in
    (buf', eq ∙ ap (λ m. ok (some buf', m) e') (sym same), len)

-- With five presence flags and the internal use area not present, if create_frufile finds the
-- size `n` without a buffer, from the error state at the call and again from the one after that,
-- fru_savebuffer allocates a buffer, and succeeds with `n` bytes in a buffer of `n` bytes.
pub savebuffer-exact :
    (clock : Clock) (fru : Fru) (n : ℕ) (e e1 e2 : FruErrno)
    → length fru.present ≡ suc apos_max
    → get_elem? fru.present fru_internal_use ≡ some false
    → create_frufile clock none fru e ≡ ok (none, n) e1
    → create_frufile clock none fru e1 ≡ ok (none, n) e2
    → (buf : Bytes) × (savebuffer clock true none (some fru) e ≡ ok (some buf, n) e2)
      × (length buf ≡ n)
unfolding savebuffer output_buffer
savebuffer-exact clock fru n e e1 e2 size off first second =
    let all = length-zeros n in
    let (buf, eq, len) =
      create_frufile-exact clock fru n (zeros n) e1 e2 size off second (omega arith) in
    (buf, rw (first, bind_outcome) eq, len ∙ all)

-- If create_frufile finds a size without a buffer, and the caller's buffer is smaller,
-- fru_savebuffer fails with FE2SMALL.
pub savebuffer-too_small :
    (clock : Clock) (allocated : Bool) (fru : Fru) (n capacity : ℕ) (e e1 : FruErrno)
    → create_frufile clock none fru e ≡ ok (none, n) e1
    → capacity < n
    → savebuffer clock allocated (some capacity) (some fru) e
      ≡ fail (with_error fe2small ferr_loc_general minus_one e1)
unfolding savebuffer output_buffer
savebuffer-too_small clock allocated fru n capacity e e1 first short =
    let no_room : leb n capacity ≡ false = ground arith in
    rw (first, bind_outcome) (rw (no_room, guard) refl)
