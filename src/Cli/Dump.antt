-- ===== src/Cli/Dump.antt =====
-- fhexstrdump shows the bytes of a string of hex digits.
use frugen.Common.{
  ℕ, suc, ◌+◌, ◌%◌, ◌/◌, ◌≤◌, ◌<◌, ◌≡◌, ◌≢◌, refl, ap, ◌∙◌, true, false, none, some, List, [], ◌∷◌,
  ◌++◌, Bytes, IsByte, IsBytes, All, ◌==◌, length, arith, Bool-cases, inl, inr, if◌then◌else◌,
}
use frugen.Errno.{FruErrno, ok, bind_outcome}
use frugen.Hex.{nibble2hex, byte2hex, write_hex}
use frugen.Hex.Digits.{hex2byte-byte2hex}
use frugen.Internal.{is_xdigit, is_delimiter}
use frugen.Cli.Items.{push, dump_char, dump_lines, hex_octet, fhexstrdump}

-- The lines, when `count` octets stand in the current one.
abbrev pub chunk : ℕ → Bytes → List Bytes
chunk count [] = [] ∷ []
chunk count (b ∷ bytes) =
    if count == 16
    then [] ∷ push (some b) (chunk 1 bytes)
    else push (some b) (chunk (suc count) bytes)

abbrev pub concat : List Bytes → Bytes
concat [] = []
concat (line ∷ lines) = line ++ concat lines

nibble-is_xdigit :
    (n : ℕ) → n < 16 → (is_delimiter (nibble2hex n) ≡ false) × (is_xdigit (nibble2hex n) ≡ true)
unfolding is_delimiter is_xdigit nibble2hex
nibble-is_xdigit n h = (ground arith, ground arith)

dump_high : (prev n : ℕ) (e : FruErrno) → n < 16 → dump_char false prev (nibble2hex n) e ≡ ok none e
unfolding dump_char
dump_high prev n e h =
    let (plain, digit) = nibble-is_xdigit n h in rw (plain, dump_char) (rw (digit, dump_char) refl)

dump_low :
    (b : ℕ) (e : FruErrno)
    → IsByte b
    → dump_char true (nibble2hex (b / 16 % 16)) (nibble2hex (b % 16)) e ≡ ok (some b) e
unfolding dump_char hex_octet byte2hex
dump_low b e h =
    let (plain, digit) = nibble-is_xdigit (b % 16) (omega arith) in
    rw (plain, dump_char)
      (rw (digit, dump_char) (rw (hex2byte-byte2hex b [] e h, bind_outcome) refl))

low_step :
    (k b : ℕ) (rest : Bytes) (lines : List Bytes) (e : FruErrno)
    → IsByte b
    → (k == 16) ≡ false
    → dump_lines (suc k) false (nibble2hex (b % 16)) rest e ≡ ok lines e
    → dump_lines k true (nibble2hex (b / 16 % 16)) (nibble2hex (b % 16) ∷ rest) e
      ≡ ok (push (some b) lines) e
unfolding dump_lines
low_step k b rest lines e hb room run =
    rw (dump_low b e hb, bind_outcome) (rw room (rw (run, bind_outcome) refl))

dump_lines_lem :
    (count prev : ℕ) (bytes : Bytes) (e : FruErrno)
    → IsBytes bytes
    → dump_lines count false prev (write_hex bytes) e ≡ ok (chunk count bytes) e
unfolding dump_lines write_hex byte2hex
dump_lines_lem count prev [] e h = refl
dump_lines_lem count prev (b ∷ bytes) e (hb, h) =
    let high = dump_high prev (b / 16 % 16) e (omega arith) in
    let low = nibble2hex (b % 16) in
    elim (Bool-cases (count == 16)) [
      | inl full ↦
          let rest =
            low_step 0 b (write_hex bytes) (chunk 1 bytes) e hb refl
              (dump_lines_lem 1 low bytes e h) in
          rw (high, bind_outcome) (rw full (rw (rest, bind_outcome) refl))
      | inr room ↦
          let rest =
            low_step count b (write_hex bytes) (chunk (suc count) bytes) e hb room
              (dump_lines_lem (suc count) low bytes e h) in
          rw (high, bind_outcome) (rw room (rw (rest, bind_outcome) refl))
    ]

concat-push : (b : ℕ) (lines : List Bytes) → concat (push (some b) lines) ≡ b ∷ concat lines
concat-push b [] = refl
concat-push b (line ∷ lines) = refl

concat-chunk : (count : ℕ) (bytes : Bytes) → concat (chunk count bytes) ≡ bytes
concat-chunk count [] = refl
concat-chunk count (b ∷ bytes) = elim (Bool-cases (count == 16)) [
  | inl full ↦ rw full (concat-push b (chunk 1 bytes) ∙ ap (λ l. b ∷ l) (concat-chunk 1 bytes))
  | inr room ↦
      rw room
        (concat-push b (chunk (suc count) bytes) ∙ ap (λ l. b ∷ l) (concat-chunk (suc count) bytes))
]

-- No line has more than 16 octets; the first one has those that stand in it already.
Fits : ℕ → List Bytes → Type 0
Fits count [] = ⊥
Fits count (line ∷ lines) = (count + length line ≤ 16) × All (λ l. length l ≤ 16) lines

Fits-push :
    (count b : ℕ) (lines : List Bytes) → Fits (suc count) lines → Fits count (push (some b) lines)
unfolding Fits
Fits-push count b [] h = absurd h
Fits-push count b (line ∷ lines) (short, rest) = (omega arith, rest)

Fits-All : (lines : List Bytes) → Fits 0 lines → All (λ l. length l ≤ 16) lines
unfolding Fits
Fits-All [] h = absurd h
Fits-All (line ∷ lines) (short, rest) = (omega arith, rest)

chunk-Fits : (count : ℕ) (bytes : Bytes) → count ≤ 16 → Fits count (chunk count bytes)
unfolding Fits
chunk-Fits count [] h = (omega arith, tt)
chunk-Fits count (b ∷ bytes) h = elim (Bool-cases (count == 16)) [
  | inl full ↦ rw full (
    omega arith,
    Fits-All (push (some b) (chunk 1 bytes))
        (Fits-push 0 b (chunk 1 bytes) (chunk-Fits 1 bytes (omega arith))),
  )
  | inr room ↦
      rw room
        (Fits-push count b (chunk (suc count) bytes) (chunk-Fits (suc count) bytes (ground arith)))
]

-- For the hex digits of one byte or more, with no delimiters, fhexstrdump shows these bytes, in
-- lines of at most 16 of them.
pub fhexstrdump-write_hex :
    (bytes : Bytes) (e : FruErrno)
    → IsBytes bytes
    → bytes ≢ []
    → (lines : List Bytes) × (fhexstrdump (some (write_hex bytes)) e ≡ ok lines e)
      × (concat lines ≡ bytes)
      × All (λ line. length line ≤ 16) lines
unfolding fhexstrdump write_hex byte2hex
fhexstrdump-write_hex [] e h some_bytes = absurd (some_bytes refl)
fhexstrdump-write_hex (b ∷ bytes) e h some_bytes = (
  chunk 0 (b ∷ bytes),
  dump_lines_lem 0 0 (b ∷ bytes) e h,
  concat-chunk 0 (b ∷ bytes),
  Fits-All (chunk 0 (b ∷ bytes)) (chunk-Fits 0 (b ∷ bytes) (omega arith)),
)
