-- ===== src/Save.antt =====
-- What the encoders of lib/fru_save.c share: the output buffer and the sizes in blocks.
pub mod Write
pub mod Record
pub mod Area
pub mod Reads
pub mod Region
pub mod Honest
pub mod Sizes
pub mod RecordSizes
pub mod File
pub mod Store
pub mod TwoPass
pub mod Overflow
pub mod Sealing
mod Tests
use frugen.Common.{
  ℕ, zero, suc, ◌+◌, ◌-◌, ◌*◌, ◌/◌, Bool, true, false, Option, some, none, List, [], ◌∷◌, ◌++◌,
  Bytes, u8, length, take, drop, leb, if◌then◌else◌, get_elem?,
}
use frugen.Errno.{FruErrno, Outcome, ok, fail, fault, Eff, ◌>>=◌, pure, undefined, deref}

-- FRU__BLOCKS, FRU__BYTES and FRU__BLOCK_ALIGN
abbrev pub blocks : ℕ → ℕ
blocks bytes = (bytes + 7) / 8

abbrev pub bytes_of : ℕ → ℕ
bytes_of n = n * 8

abbrev pub block_align : ℕ → ℕ
block_align size = bytes_of (blocks size)

-- FRU__VER
abbrev pub fru_ver : ℕ
fru_ver = 1

-- The output buffer, from its first byte on, or none for a NULL pointer: then an encoder finds the
-- size only. Where an encoder is given a pointer into the buffer, the model has the offset.
abbrev pub Buffer : Type 0
Buffer = Option Bytes

abbrev pub zeros : ℕ → Bytes
zeros zero = []
zeros (suc n) = 0 ∷ zeros n

unfoldable pub splice : Bytes → ℕ → Bytes → Bytes
splice buf offset bytes = take offset buf ++ (bytes ++ drop (offset + length bytes) buf)

-- A write of bytes at an offset, where there is a buffer.
unfoldable pub write_out : Buffer → ℕ → Bytes → Eff Buffer
write_out none offset bytes = pure none
write_out (some buf) offset bytes =
    if leb (offset + length bytes) (length buf)
    then pure (some (splice buf offset bytes))
    else undefined

-- The `size` bytes from an offset on; without a buffer nothing is read.
unfoldable pub read_out : Buffer → ℕ → ℕ → Eff Bytes
read_out none offset size = pure []
read_out (some buf) offset size =
    if leb (offset + size) (length buf) then pure (take size (drop offset buf)) else undefined

-- A failure whose source, or source and index, the caller changes.
abbrev pub blamed {ℓ} : {A : Type ℓ} → (FruErrno → FruErrno) → Outcome A → Outcome A
blamed blame (ok a e) = ok a e
blamed blame (fail e) = fail (blame e)
blamed blame fault = fault

abbrev pub on_fail {ℓ} : {A : Type ℓ} → (FruErrno → FruErrno) → Eff A → Eff A
on_fail blame call e = blamed blame (call e)
