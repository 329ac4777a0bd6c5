-- ===== src/Cli/Items.antt =====
-- What the loops of frugen.c print: a list of items, each with the data that it shows; the layout
-- is left out. fhexstrdump prints the lines of octets.
use frugen.Common.{
  ℕ, suc, Bool, true, false, not, Option, none, some, List, [], ◌∷◌, Bytes, ◌==◌, if◌then◌else◌,
}
use frugen.Errno.{Outcome, ok, fail, fault, Eff, ◌>>=◌, pure}
use frugen.Field.{Field}
use frugen.Fru.{Timeval}
use frugen.Internal.{is_xdigit, is_delimiter}
use frugen.Hex.{hex2byte}
use frugen.Cli.{fatal}

-- A record's title has its number, the name and the low byte of its type, and whether its data
-- are printed undecoded; a subtype has its two names.
pub data Item : Type 0 where
  area_title : ℕ → Item
  octets : List Bytes → Item
  chassis_type : ℕ → Item
  language : ℕ → Item
  date : Timeval → Bool → Item
  standard_field : ℕ → Field → Item
  custom_field : ℕ → Field → Item
  invalid_record : ℕ → ℕ → Item
  record_title : ℕ → Bytes → ℕ → Bool → Item
  printable : Bytes → Item
  mgmt_subtype : ℕ → Bytes → Bytes → Item
  mgmt_data : Bytes → Item
  not_supported area_empty frugen_bug : Item

-- fru_hex2byte, whose -1 is printed as the octet FF.
abbrev pub or_minus_one : Outcome ℕ → Outcome ℕ
or_minus_one (ok byte e) = ok byte e
or_minus_one (fail e) = ok 0xff e
or_minus_one fault = fault

unfoldable pub hex_octet : ℕ → ℕ → Eff ℕ
hex_octet prev c e = or_minus_one (hex2byte (some (prev ∷ c ∷ [])) e)

-- One character of the loop of fhexstrdump: `odd` is the parity of its offset, and `prev` is the
-- character before it.
unfoldable pub dump_char : Bool → ℕ → ℕ → Eff (Option ℕ)
dump_char odd prev c = elim (is_delimiter c) [
  | true ↦ pure none
  | false ↦ elim (is_xdigit c) [
    | false ↦ fatal
    | true ↦ elim odd [ false ↦ pure none | true ↦ do byte ← hex_octet prev c; pure (some byte) ]
  ]
]

abbrev pub push : Option ℕ → List Bytes → List Bytes
push none lines = lines
push (some byte) [] = (byte ∷ []) ∷ []
push (some byte) (line ∷ lines) = (byte ∷ line) ∷ lines

abbrev pub count_of : Option ℕ → ℕ → ℕ
count_of none count = count
count_of (some byte) count = suc count

-- The two loops: `count` octets stand in the current line, which is the first one of the result; a
-- character behind 16 octets begins a line.
unfoldable pub dump_lines : ℕ → Bool → ℕ → Bytes → Eff (List Bytes)
dump_lines count odd prev [] = pure ([] ∷ [])
dump_lines count odd prev (c ∷ s) = do
  let full = count == 16
  octet ← dump_char odd prev c
  lines ← dump_lines (count_of octet (if full then 0 else count)) (not odd) c s
  pure (if full then [] ∷ push octet lines else push octet lines)

-- fhexstrdump
unfoldable pub fhexstrdump : Option Bytes → Eff (List Bytes)
fhexstrdump none = pure []
fhexstrdump (some []) = pure []
fhexstrdump (some (c ∷ s)) = dump_lines 0 false 0 (c ∷ s)
