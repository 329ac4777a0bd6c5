-- ===== src/Load/Encodings.antt =====
-- Fields of each encoding that are decoded to themselves.
use frugen.Common.{ℕ, ◌%◌, ◌≤◌, ◌≡◌, ◌≢◌, refl, ap, ◌∙◌, [], ◌∷◌, Bytes, IsBytes, All, length}
use frugen.Errno.{ok, bind_outcome}
use frugen.Hex.{hex_relaxed, write_hex}
use frugen.Hex.Convert.{write_hex-ne-nil}
use frugen.Field.{fe_binary, fe_bcdplus, fe_6bitascii, fe_text, first}
use frugen.Field.Decode.{decode_field, decode_as, decode_text, read_data, c_string, cut_tail}
use frugen.Field.Encode.{encode_field, encode_string}
use frugen.Field.Bcd.{IsBcdChar}
use frugen.Field.RoundTrip.{bcdplus_round_trip, encode_field_binary}
use frugen.Field.SixBit.Pack.{IsSixBitChar, packed}
use frugen.Field.SixBit.Unpack.{NonZero}
use frugen.Field.SixBit.RoundTrip.{six_bit_round_trip}
use frugen.Field.Text.{encode_binary-write_hex, decode_binary_lem}
use frugen.Load.Survives.{Survives}

-- The value of a field that was loaded from an empty one.
pub no_text-Survives : Survives (record { enc = fe_text; val = [] })
unfolding encode_field encode_string decode_field decode_as decode_text read_data c_string
no_text-Survives = record { filled = λ h. cc; known = λ h. cc; back = λ e. (e, refl) }

pub bcdplus-Survives :
    (s : Bytes)
    → s ≢ []
    → All IsBcdChar s
    → length s % 2 ≡ 0
    → length s ≤ 126
    → cut_tail s ≡ s
    → Survives (record { enc = fe_bcdplus; val = s })
bcdplus-Survives s ne chars even short cut = record {
  filled = λ h. cc;
  known = λ h. cc;
  back = λ e. (
    e,
    bcdplus_round_trip s e ne chars even short
        ∙ ap (λ v. ok (record { enc = fe_bcdplus; val = v }) e) cut,
  );
}

pub six_bit-Survives :
    (s : Bytes)
    → s ≢ []
    → All IsSixBitChar s
    → length s ≤ 84
    → NonZero (packed first 0 s)
    → cut_tail s ≡ s
    → Survives (record { enc = fe_6bitascii; val = s })
six_bit-Survives s ne chars short full cut = record {
  filled = λ h. cc;
  known = λ h. cc;
  back = λ e. (
    e,
    six_bit_round_trip s e ne chars short full
        ∙ ap (λ v. ok (record { enc = fe_6bitascii; val = v }) e) cut,
  );
}

-- The digits of 1 to 63 bytes.
pub binary-Survives :
    (b : ℕ) (bs : Bytes)
    → IsBytes (b ∷ bs)
    → length (b ∷ bs) ≤ 63
    → Survives (record { enc = fe_binary; val = write_hex (b ∷ bs) })
binary-Survives b bs bytes short = record {
  filled = λ h. cc;
  known = λ h. cc;
  back = λ e. (
    e,
    rw
        (
          encode_field_binary (write_hex (b ∷ bs)) (write_hex-ne-nil b bs),
          bind_outcome,
          encode_binary-write_hex hex_relaxed (b ∷ bs) e bytes short,
        )
        (decode_binary_lem (b ∷ bs) e short),
  );
}
