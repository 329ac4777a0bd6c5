-- ===== src/Save/Region.antt =====
-- What a buffer holds at an offset, and which writes leave it there.
use frugen.Common.{
  ℕ, suc, ◌+◌, ◌≤◌, ◌<◌, ◌≡◌, ◌⊎◌, inl, inr, refl, ap, ◌∙◌, some, [], ◌∷◌, ◌++◌, Bytes, length,
  drop, get_elem?, arith, leb, Bool-cases,
}
use frugen.Errno.{FruErrno, ok}
use frugen.Save.{Buffer, splice, write_out}
use frugen.Save.Reads.{
  get_elem?-splice_before, get_elem?-splice_in, get_elem?-splice_after, get_elem?-drop,
}

-- The bytes from `lo` on and in front of `hi` are the same.
abbrev pub Agrees : Bytes → Bytes → ℕ → ℕ → Type 0
Agrees buf buf' lo hi = (k : ℕ) → lo ≤ k → k < hi → get_elem? buf' k ≡ get_elem? buf k

abbrev pub Holds : Bytes → ℕ → Bytes → Type 0
Holds buf at bytes = (k : ℕ) → k < length bytes → get_elem? buf (at + k) ≡ get_elem? bytes k

pub splice-Holds :
    (buf : Bytes) (at : ℕ) (bytes : Bytes)
    → at + length bytes ≤ length buf
    → Holds (splice buf at bytes) at bytes
splice-Holds buf at bytes fits k h = get_elem?-splice_in buf at bytes (at + k) k fits refl h

pub splice-Agrees :
    (buf : Bytes) (at : ℕ) (bytes : Bytes) (lo hi : ℕ)
    → at + length bytes ≤ length buf
    → (hi ≤ at) ⊎ (at + length bytes ≤ lo)
    → Agrees buf (splice buf at bytes) lo hi
splice-Agrees buf at bytes lo hi fits (inl before) k above below =
    get_elem?-splice_before buf at bytes k fits (omega arith)
splice-Agrees buf at bytes lo hi fits (inr behind) k above below =
    get_elem?-splice_after buf at bytes k fits (omega arith)

pub Agrees-trans :
    (a b c : Bytes) (lo hi : ℕ) → Agrees a b lo hi → Agrees b c lo hi → Agrees a c lo hi
Agrees-trans a b c lo hi ab bc k above below = bc k above below ∙ ab k above below

pub Agrees-Holds :
    (buf buf' : Bytes) (lo hi at : ℕ) (bytes : Bytes)
    → Agrees buf buf' lo hi
    → lo ≤ at
    → at + length bytes ≤ hi
    → Holds buf at bytes
    → Holds buf' at bytes
Agrees-Holds buf buf' lo hi at bytes same above below holds k h =
    same (at + k) (omega arith) (omega arith) ∙ holds k h

-- A list that begins with given bytes.
starts_with :
    (bytes xs : Bytes)
    → ((k : ℕ) → k < length bytes → get_elem? xs k ≡ get_elem? bytes k)
    → xs ≡ bytes ++ drop (length bytes) xs
starts_with [] xs same = refl
starts_with (b ∷ bytes) [] same = let first = same 0 (omega arith) in cc
starts_with (b ∷ bytes) (x ∷ xs) same =
    let first = same 0 (omega arith) in
    let is_b : x ≡ b = cc in
    let rest = starts_with bytes xs (λ k h. same (suc k) (omega arith)) in
    ap (λ y. y ∷ xs) is_b ∙ ap (λ ys. b ∷ ys) rest

pub drop-Holds :
    (buf : Bytes) (at : ℕ) (bytes : Bytes)
    → Holds buf at bytes
    → (rest : Bytes) × (drop at buf ≡ bytes ++ rest)
drop-Holds buf at bytes holds = (
  drop (length bytes) (drop at buf),
  starts_with bytes (drop at buf) (λ k h. get_elem?-drop at buf (at + k) k refl ∙ holds k h),
)

-- A write that succeeds.
pub write_out-eq-ok :
    (buf : Bytes) (at : ℕ) (bytes : Bytes) (e : FruErrno) {out : Buffer} {e' : FruErrno}
    → write_out (some buf) at bytes e ≡ ok out e'
    → (at + length bytes ≤ length buf) × (out ≡ some (splice buf at bytes)) × (e' ≡ e)
unfolding write_out
write_out-eq-ok buf at bytes e h = elim (Bool-cases (leb (at + length bytes) (length buf))) [
  | inl fits ↦ let run = rw fits at h in (ground arith, cc, cc)
  | inr beyond ↦ let stuck = rw beyond at h in cc
]
