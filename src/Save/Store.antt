-- ===== src/Save/Store.antt =====
-- fru_savefile of lib/fru_save.c. What the system calls return is an argument.
use frugen.Common.{
  ℕ, zero, suc, ap, ◌∙◌, ◌+◌, ◌-◌, ◌<◌, ◌≡◌, refl, Bool, true, false, ◌&&◌, not, Option, none, some,
  List, [], ◌∷◌, ◌++◌, Bytes, ltb, length, take, take_all, minus_one, lt→ltb, arith,
}
use frugen.Errno.{
  FruErrno, ok, Eff, ◌>>=◌, ◌>>◌, pure, deref, guard, fail_with, with_error, fegeneric, efault,
  ferr_loc_general,
}
use frugen.Fru.{Fru}
use frugen.Area.{is_none}
use frugen.Save.Area.{Clock}
use frugen.Save.File.{savebuffer}

-- One call of `write`: -1 with EINTR, -1 with another error, or the number of bytes written.
pub data WriteResult : Type 0 where
  interrupted : WriteResult
  refused : WriteResult
  wrote : ℕ → WriteResult

-- The loop that writes, with the results of its calls: the content of the file, or none when the
-- results are used up. Each call is given the buffer from its start on, with its full size.
unfoldable pub write_loop : List WriteResult → Bytes → ℕ → Bytes → Eff (Option Bytes)
write_loop [] buf written file =
    pure (elim (ltb written (length buf)) [ true ↦ none | false ↦ some file ])
write_loop (result ∷ results) buf written file = elim (ltb written (length buf)) [
  | false ↦ pure (some file)
  | true ↦ elim result [
    | interrupted ↦ write_loop results buf written file
    | refused ↦ fail_with fegeneric ferr_loc_general minus_one
    | wrote rc ↦ write_loop results buf (written + rc) (file ++ take rc buf)
  ]
]

-- The check of the arguments sets the error, and the call goes on.
unfoldable pub note_null : Bool → Eff (Unit {0})
note_null true e = ok tt e
note_null false e =
    ok tt (record (with_error fegeneric ferr_loc_general minus_one e) { errno = efault })

-- fru_savefile: `named` says that the name is not NULL, and `created` that `open` succeeds.
unfoldable pub savefile :
    Clock → Bool → Bool → Bool → List WriteResult → Option Fru → Eff (Option Bytes)
savefile clock allocated named created results ptr = do
  note_null (named && not (is_none ptr))
  (out, size) ← savebuffer clock allocated none ptr
  guard created fegeneric ferr_loc_general minus_one
  buf ← deref out
  write_loop results buf 0 []

-- `k` interrupted calls.
abbrev pub interrupts : ℕ → List WriteResult → List WriteResult
interrupts zero results = results
interrupts (suc k) results = interrupted ∷ interrupts k results

ended :
    (results : List WriteResult) (buf file : Bytes) (written : ℕ) (e : FruErrno)
    → ltb written (length buf) ≡ false
    → write_loop results buf written file e ≡ ok (some file) e
unfolding write_loop
ended [] buf file written e h = rw h refl
ended (result ∷ results) buf file written e h = rw (h, write_loop) refl

goes_on :
    (rc : ℕ) (results : List WriteResult) (buf file : Bytes) (written : ℕ) (e : FruErrno)
    → ltb written (length buf) ≡ true
    → write_loop (wrote rc ∷ results) buf written file e
      ≡ write_loop results buf (written + rc) (file ++ take rc buf) e
unfolding write_loop
goes_on rc results buf file written e h = rw (h, write_loop) refl

-- When the calls of `write` are interrupted any number of times, and then one of them writes all
-- that it is given, the file holds the buffer.
pub write_loop_whole :
    (k : ℕ) (results : List WriteResult) (buf : Bytes) (e : FruErrno)
    → 0 < length buf
    → write_loop (interrupts k (wrote (length buf) ∷ results)) buf 0 [] e ≡ ok (some buf) e
unfolding write_loop
write_loop_whole zero results buf e some_bytes =
    let at_end : ltb (0 + length buf) (length buf) ≡ false = ground arith in
    goes_on (length buf) results buf [] 0 e (lt→ltb 0 (length buf) some_bytes)
    ∙ ended results buf (take (length buf) buf) (0 + length buf) e at_end
    ∙ ap (λ file. ok (some file) e) (take_all (length buf) buf (omega arith))
write_loop_whole (suc k) results buf e some_bytes =
    rw (lt→ltb 0 (length buf) some_bytes, write_loop) (write_loop_whole k results buf e some_bytes)

-- When the first call of `write` writes a part of the buffer, and the second one as many bytes as
-- are left, fru_savefile takes the file for complete, but it holds the two parts from the start
-- of the buffer each.
pub write_loop_short :
    (buf : Bytes) (n : ℕ) (e : FruErrno)
    → n < length buf
    → write_loop (wrote n ∷ wrote (length buf - n) ∷ []) buf 0 [] e
      ≡ ok (some (take n buf ++ take (length buf - n) buf)) e
write_loop_short buf n e part =
    let at_end : ltb (0 + n + (length buf - n)) (length buf) ≡ false = ground arith in
    goes_on n (wrote (length buf - n) ∷ []) buf [] 0 e (lt→ltb 0 (length buf) (omega arith))
    ∙ goes_on (length buf - n) [] buf (take n buf) (0 + n) e
        (lt→ltb (0 + n) (length buf) (omega arith))
    ∙ ended [] buf (take n buf ++ take (length buf - n) buf) (0 + n + (length buf - n)) e at_end
