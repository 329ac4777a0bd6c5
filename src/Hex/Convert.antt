-- ===== src/Hex/Convert.antt =====
-- `fru__hexstr2bin` undoes `fru__decode_raw_binary`, up to the size limit that it is given.
use frugen.Common.{Option}
use frugen.Common.{
  ◌⊎◌, ℕ, zero, suc, ◌+◌, ◌*◌, ◌/◌, ◌%◌, ◌<◌, ◌≤◌, ◌≡◌, ◌≢◌, refl, ◌∙◌, arith, some, [], ◌∷◌, ◌++◌,
  true, false, Bytes, IsByte, IsBytes, length, take, drop, minus_one, length-take,
}
use frugen.Errno.{FruErrno, ok, with_error, fe2big, ferr_loc_general, bind_outcome, ◌>>=◌}
use frugen.Hex.{
  byte2hex, write_hex, decode_raw_binary, hex2byte, HexMode, skips, below_limit, hex_loop,
  hex_finish, hexstr2bin,
}
use frugen.Hex.Digits.{hex2byte-byte2hex, nibble_of-nibble2hex, nibble_of-skips}

-- A round of the loop that converts two characters.
pub loop_pair :
    (mode : HexMode) (limit size c d b : ℕ) (s : Bytes) (e : FruErrno)
    → below_limit limit size ≡ true
    → skips mode c ≡ false
    → hex2byte (some (c ∷ d ∷ s)) e ≡ ok b e
    → hex_loop mode limit size (c ∷ d ∷ s) e
      ≡ bind_outcome (hex_loop mode limit (suc size) s e) (λ out e'. ok (b ∷ out.0, out.1) e')
unfolding hex_loop
loop_pair mode limit size c d b s e room digit byte =
    rw (room, hex_loop) (rw (digit, hex_loop) (rw (byte, hex_loop) refl))

-- A byte's digits are no separators, so that the loop converts them.
loop_byte :
    (mode : HexMode) (limit size b : ℕ) (s : Bytes) (e : FruErrno)
    → IsByte b
    → below_limit limit size ≡ true
    → hex_loop mode limit size (byte2hex b ++ s) e
      ≡ bind_outcome (hex_loop mode limit (suc size) s e) (λ out e'. ok (b ∷ out.0, out.1) e')
unfolding byte2hex
loop_byte mode limit size b s e hb room =
    let digit = nibble_of-nibble2hex (b / 16 % 16) (omega arith) in
    loop_pair mode limit size _ _ b s e room (nibble_of-skips mode _ _ digit)
      (hex2byte-byte2hex b s e hb)

loop_full :
    (mode : HexMode) (limit size : ℕ) (bs : Bytes) (e : FruErrno)
    → below_limit limit size ≡ false
    → hex_loop mode limit size (write_hex bs) e ≡ ok ([], write_hex bs) e
unfolding hex_loop write_hex byte2hex
loop_full mode limit size [] e full = refl
loop_full mode limit size (b ∷ bs) e full = rw (full, hex_loop) refl

-- With no limit, or enough room, the whole text is converted.
loop-write_hex :
    (mode : HexMode) (limit size : ℕ) (bs : Bytes) (e : FruErrno)
    → IsBytes bs
    → (limit ≡ 0) ⊎ (size + length bs ≤ limit)
    → hex_loop mode limit size (write_hex bs) e ≡ ok (bs, []) e
unfolding write_hex
loop-write_hex mode limit size [] e hb h = unfold hex_loop in refl
loop-write_hex mode limit size (b ∷ bs) e (hb, hbs) h =
    loop_byte mode limit size b (write_hex bs) e hb (unfold below_limit in ground arith)
    ∙ rw (loop-write_hex mode limit (suc size) bs e hbs (ground arith)) refl

-- With less room, the loop stops at the limit.
loop-write_hex_cut :
    (mode : HexMode) (limit room size : ℕ) (bs : Bytes) (e : FruErrno)
    → IsBytes bs
    → limit ≢ 0
    → limit ≡ size + room
    → room ≤ length bs
    → hex_loop mode limit size (write_hex bs) e ≡ ok (take room bs, write_hex (drop room bs)) e
unfolding write_hex
loop-write_hex_cut mode limit zero size bs e hb pos eq h =
    loop_full mode limit size bs e (unfold below_limit in ground arith)
loop-write_hex_cut mode limit (suc room) size [] e hb pos eq h = absurd (omega arith)
loop-write_hex_cut mode limit (suc room) size (b ∷ bs) e (hb, hbs) pos eq h =
    loop_byte mode limit size b (write_hex bs) e hb (unfold below_limit in ground arith)
    ∙ rw (loop-write_hex_cut mode limit room (suc size) bs e hbs pos (omega arith) (omega arith))
        refl

drop-ne-nil : (n : ℕ) (bs : Bytes) → n < length bs → (b : ℕ) × (t : Bytes) × (drop n bs ≡ b ∷ t)
drop-ne-nil n [] h = absurd (omega arith)
drop-ne-nil zero (b ∷ bs) h = (b, bs, refl)
drop-ne-nil (suc n) (b ∷ bs) h = drop-ne-nil n bs (omega arith)

pub decode_raw_lem :
    (bs : Bytes) (out_len : ℕ) (e : FruErrno)
    → length bs * 2 + 1 ≤ out_len
    → decode_raw_binary bs (some []) out_len e ≡ ok (write_hex bs) e
unfolding decode_raw_binary write_hex
decode_raw_lem [] out_len e h = ground arith
decode_raw_lem (b ∷ bs) out_len e h = ground arith

-- The bytes that are there overwrite what the buffer held.
pub decode_raw_some :
    (b : ℕ) (bs : Bytes) (out : Option Bytes) (out_len : ℕ) (e : FruErrno)
    → length (b ∷ bs) * 2 + 1 ≤ out_len
    → decode_raw_binary (b ∷ bs) out out_len e ≡ ok (write_hex (b ∷ bs)) e
unfolding decode_raw_binary
decode_raw_some b bs out out_len e h = ground arith

pub write_hex-ne-nil : (b : ℕ) (bs : Bytes) → write_hex (b ∷ bs) ≢ []
unfolding write_hex byte2hex
write_hex-ne-nil b bs = cc

pub length-write_hex : (bs : Bytes) → length (write_hex bs) ≡ length bs * 2
unfolding write_hex byte2hex
length-write_hex [] = refl
length-write_hex (b ∷ bs) = omega (arith, length-write_hex bs)

pub hexstr2bin-write_hex :
    (mode : HexMode) (limit : ℕ) (bs : Bytes) (e : FruErrno)
    → IsBytes bs
    → (limit ≡ 0) ⊎ (length bs ≤ limit)
    → hexstr2bin mode limit (write_hex bs) e ≡ ok bs e
unfolding hexstr2bin
hexstr2bin-write_hex mode limit bs e hb room =
    rw (loop-write_hex mode limit 0 bs e hb (ground arith)) (unfold hex_finish in refl)

-- Bytes printed by `fru__decode_raw_binary` into a zeroed buffer that holds them are read back by
-- `fru__hexstr2bin`, in either mode, with no size limit or one that they keep, and no error is set.
pub hexstr2bin-decode_raw_binary :
    (mode : HexMode) (limit out_len : ℕ) (bs : Bytes) (e : FruErrno)
    → IsBytes bs
    → length bs * 2 + 1 ≤ out_len
    → (limit ≡ 0) ⊎ (length bs ≤ limit)
    → (decode_raw_binary bs (some []) out_len >>= hexstr2bin mode limit) e ≡ ok bs e
hexstr2bin-decode_raw_binary mode limit out_len bs e hb fits room =
    rw (decode_raw_lem bs out_len e fits) (hexstr2bin-write_hex mode limit bs e hb room)

-- Bytes printed by `fru__decode_raw_binary`, into a zeroed buffer, that exceed the size limit of
-- `fru__hexstr2bin` are cut to the limit: the call succeeds, and leaves the error code FE2BIG.
pub hexstr2bin_truncates :
    (mode : HexMode) (limit out_len : ℕ) (bs : Bytes) (e : FruErrno)
    → IsBytes bs
    → length bs * 2 + 1 ≤ out_len
    → limit ≢ 0
    → limit < length bs
    → (decode_raw_binary bs (some []) out_len >>= hexstr2bin mode limit) e
      ≡ ok (take limit bs) (with_error fe2big ferr_loc_general minus_one e)
unfolding hexstr2bin
hexstr2bin_truncates mode limit out_len bs e hb fits pos long =
    let (b, t, rest) = drop-ne-nil limit bs long in
    rw (decode_raw_lem bs out_len e fits) (
      rw (loop-write_hex_cut mode limit limit 0 bs e hb pos (omega arith) (omega arith), rest)
        (unfold hex_finish write_hex byte2hex in ground (arith, length-take limit bs)))
