-- ===== src/Load/HeldLoop.antt =====
-- The loops of decode_info_area over fields that the image holds.
use frugen.Common.{
  ℕ, zero, suc, ◌+◌, ◌-◌, ◌≤◌, ◌<◌, ◌≡◌, refl, sym, ap, ◌∙◌, some, List, [], ◌∷◌, Bytes, length,
  arith, get_elem?, ltb, true,
}
use frugen.Errno.{
  FruErrno, Eff, Outcome, ok, fail, fault, bind_outcome, ◌>>=◌, pure, deref, fenoterm,
}
use frugen.Field.{Field, field_terminator}
use frugen.Fru.{Fru}
use frugen.Load.{Flags, check}
use frugen.Load.Area.{decode_fields, custom_loop, keep_custom, field_size, decode_custom_fields}
use frugen.Load.Rounds.{bind-ext}
use frugen.Load.Recoded.{HeldFields, held_nil, held_cons}

held_le : (image : Bytes) {at end : ℕ} {outs : List Field} → HeldFields image at outs end → at ≤ end
held_le image held_nil = omega arith
held_le image (held_cons f out here decodes goes_on held) = omega (arith, held_le image held)

pub decode_fields-held :
    (image : Bytes) (atype : ℕ) {at end : ℕ} {outs : List Field}
    → HeldFields image at outs end
    → (left i : ℕ) (e : FruErrno)
    → decode_fields image atype at left i (length outs) e ≡ ok (outs, end, left - (end - at)) e
unfolding decode_fields
decode_fields-held image atype {at = at} held_nil left i e =
    let whole : left ≡ left - (at - at) = omega arith in ap (λ l. ok ([], at, l) e) whole
decode_fields-held image atype {at = at} {end = end}
      (held_cons {outfields = outs} f out here decodes goes_on held) left i e =
    let size : ℕ = field_size f in
    let behind = held_le image held in
    let left_over : left - size - (end - (at + size)) ≡ left - (end - at) = omega arith in
    rw (here e, bind_outcome, decodes e)
      (rw (decode_fields-held image atype held (left - size) (suc i) e, bind_outcome)
        (ap (λ l. ok (out ∷ outs, end, l) e) left_over))

-- The fields are added to the custom ones of an area, one after the other.
unfoldable pub keep_all : ℕ → List Field → Fru → Eff Fru
keep_all atype [] fru = pure fru
keep_all atype (field ∷ fields) fru = do
  fru' ← keep_custom fru atype field
  keep_all atype fields fru'

bind-bind :
    {A B C : Type 0} (o : Outcome A) (f : A → Eff B) (g : B → Eff C)
    → bind_outcome (bind_outcome o f) g ≡ bind_outcome o (λ a e. bind_outcome (f a e) g)
bind-bind (ok a e) f g = refl
bind-bind (fail e) f g = refl
bind-bind fault f g = refl

bind-pure : {A : Type 0} (o : Outcome A) → bind_outcome o pure ≡ o
bind-pure (ok a e) = refl
bind-pure (fail e) = refl
bind-pure fault = refl

custom_loop-held :
    (image : Bytes) (atype n : ℕ) {at end : ℕ} {outs : List Field}
    → HeldFields image at outs end
    → get_elem? image end ≡ some field_terminator
    → (fru : Fru) (left i : ℕ) (e : FruErrno) → end - at < left
    → left ≤ n
    → custom_loop image atype fru at left i n e
      ≡ bind_outcome (keep_all atype outs fru e) (λ fru'. pure (fru', left - (end - at)))
unfolding custom_loop keep_all
custom_loop-held image atype zero held last fru left i e some_left rounds = absurd (omega arith)
custom_loop-held image atype (suc n) {at = at} held_nil last fru left i e some_left rounds =
    let more : ltb 0 left ≡ true = ground arith in
    let whole : left ≡ left - (at - at) = omega arith in
    rw (more, custom_loop) (rw (last, bind_outcome, deref) (ap (λ l. ok (fru, l) e) whole))
custom_loop-held image atype (suc n) {at = at} {end = end}
      (held_cons {outfields = outs} f out here decodes goes_on held) last fru left i e some_left
      rounds =
    let more : ltb 0 left ≡ true = ground arith in
    let size : ℕ = field_size f in
    let behind = held_le image held in
    let left_over : left - size - (end - (at + size)) ≡ left - (end - at) = omega arith in
    rw (more, custom_loop)
      (rw (here e, bind_outcome, goes_on)
        (rw (decodes e) (
          bind-ext (keep_custom fru atype out e)
            (λ fru'. custom_loop image atype fru' (at + size) (left - size) (suc i) n)
            (λ fru' e1.
              bind_outcome (keep_all atype outs fru' e1) (λ x. pure (x, left - (end - at))))
            (λ fru' e1 _.
              custom_loop-held image atype n held last fru' (left - size) (suc i) e1 (omega arith)
                (omega arith)
              ∙ ap (λ l. bind_outcome (keep_all atype outs fru' e1) (λ x. pure (x, l))) left_over)
          ∙ sym (
              bind-bind (keep_custom fru atype out e) (λ fru'. keep_all atype outs fru')
                (λ x. pure (x, left - (end - at)))))))

-- decode_custom_fields on an area whose custom fields end with the terminator.
pub decode_custom_fields-held :
    (image : Bytes) (atype : ℕ) {at end : ℕ} {outs : List Field}
    → HeldFields image at outs end
    → get_elem? image end ≡ some field_terminator
    → (left : ℕ) (flags : Flags) (fru : Fru) (e : FruErrno) → end - at < left
    → decode_custom_fields image atype at left flags fru e ≡ keep_all atype outs fru e
unfolding decode_custom_fields
decode_custom_fields-held image atype {at = at} {end = end} {outs = outs} held last left flags fru e
      some_left =
    let more : ltb 0 (left - (end - at)) ≡ true = ground arith in
    let checked : Fru × ℕ → Eff Fru =
      λ p. check (ltb 0 p.1) flags.ign_aeof fenoterm atype >>= λ _. pure p.0 in
    ap (λ o. bind_outcome o checked)
      (custom_loop-held image atype left held last fru left 0 e some_left (omega arith))
    ∙ bind-bind (keep_all atype outs fru e) (λ x. pure (x, left - (end - at))) checked
    ∙ bind-ext (keep_all atype outs fru e) (λ x. checked (x, left - (end - at))) pure
        (λ x e1 _. rw (more, check) refl)
    ∙ bind-pure (keep_all atype outs fru e)
