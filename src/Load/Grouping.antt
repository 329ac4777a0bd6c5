-- ===== src/Load/Grouping.antt =====
-- The order of the areas that fru_loadbuffer leaves is well-formed.
use frugen.Common.{
  ℕ, suc, ◌≤◌, ◌<◌, ◌≡◌, refl, sym, ap, ◌∙◌, Bool, true, false, Option, some, none, List, [], ◌∷◌,
  ◌++◌, Bytes, ℤ, length, arith, ◌==◌, ltb, Bool-cases, inl, inr, if◌then◌else◌, All,
}
use mathlib.Core.Path.{subst}
use frugen.Errno.{FruErrno, Outcome, ok, fail, fault, non_null, ferr_loc_general}
use frugen.Fru.{Fru}
use frugen.Area.{apos_max}
use frugen.Area.Moves.{count}
use frugen.Area.Order.{WellFormed, Flag}
use frugen.Load.{Flags, find_fru_header, all_areas}
use frugen.Load.File.{load_areas, types_of, target, loadbuffer}
use frugen.Load.Order.{AreaOrder, sort_areas_by_offset}
use frugen.Load.Order.Sort.{Ascending, AtLeast, sort_areas_by_offset-view}
use frugen.Load.Frame.{AllOk, bind-AllOk, next-AllOk}
use frugen.Load.Loaded.{Fresh, AsPointed, Off, LoadedAs, load_areas-AllOk}

types_of-on :
    (present : List Bool) (k : ℕ) (xs : List AreaOrder)
    → 1 ≤ k
    → All (AtLeast k) xs
    → All (AsPointed present) xs
    → All (Flag present true) (types_of xs)
types_of-on present k [] h above pointed = tt
types_of-on present k (x ∷ xs) h (hx, above) (at, pointed) =
    let on : ltb 0 x.offset ≡ true = ground arith in
    (at ∙ ap some on, types_of-on present k xs h above pointed)

-- The areas at offset 0 come first, and they are the absent ones.
group_lem :
    (present : List Bool) (xs : List AreaOrder)
    → Ascending xs
    → All (AsPointed present) xs
    → (off : List ℕ) × (on : List ℕ) × (types_of xs ≡ off ++ on)
      × All (Flag present false) off
      × All (Flag present true) on
group_lem present [] ascending pointed = ([], [], refl, tt, tt)
group_lem present (x ∷ xs) (above, ascending) (at, pointed) = elim (Bool-cases (ltb 0 x.offset)) [
  | inl there ↦
      let big : 1 ≤ x.offset = ground arith in
      (
        [],
        types_of (x ∷ xs),
        refl,
        tt,
        (at ∙ ap some there, types_of-on present x.offset xs big above pointed),
      )
  | inr absent ↦
      let (off, on, grouped, h_off, h_on) = group_lem present xs ascending pointed in
      (x.type_ ∷ off, on, ap (λ ts. x.type_ ∷ ts) grouped, (at ∙ ap some absent, h_off), h_on)
]

count-types_of :
    (a : ℕ) (x r : AreaOrder) (tail : List AreaOrder)
    → x.offset < r.offset
    → count a (types_of (r ∷ x ∷ tail)) ≡ count a (types_of (x ∷ r ∷ tail))
count-types_of a x r tail h = elim (Bool-cases (x.type_ == a)) [
  | inl hit ↦
      rw hit (elim (Bool-cases (r.type_ == a)) [ inl both ↦ rw both refl | inr one ↦ rw one refl ])
  | inr miss ↦ rw miss refl
]

length-types_of : (xs : List AreaOrder) → length (types_of xs) ≡ length xs
length-types_of [] = refl
length-types_of (x ∷ xs) = ap suc (length-types_of xs)

-- A sorted array of the five areas.
sorted-WellFormed :
    (fru : Fru) (areas sorted : List AreaOrder) (e e' : FruErrno)
    → length fru.present ≡ suc apos_max
    → types_of areas ≡ all_areas
    → All (AsPointed fru.present) areas
    → sort_areas_by_offset areas e ≡ ok sorted e'
    → WellFormed (record fru { order = types_of sorted })
sorted-WellFormed fru areas sorted e e' size types pointed eq =
    let five : length areas ≡ 5 = sym (length-types_of areas) ∙ ap length types in
    let (ys, eq1, ascending, len, kept) =
      sort_areas_by_offset-view (AsPointed fru.present) length (λ x us vs. ap suc)
        (λ a r tail h. refl) areas e five pointed in
    let same : ys ≡ sorted = ok-injective (sym eq1 ∙ eq) in
    let (off, on, grouped, h_off, h_on) = group_lem fru.present ys ascending kept in
    record {
      present_size = size;
      order_size = ap (λ zs. length (types_of zs)) (sym same) ∙ length-types_of ys ∙ len ∙ five;
      once = λ a h.
          let (zs, eq2, _, counted, _) =
            sort_areas_by_offset-view (AsPointed fru.present) (λ xs. count a (types_of xs))
              (λ x us vs. ap (λ n. if x.type_ == a then suc n else n)) (count-types_of a) areas e
              five pointed in
          ap (λ s. count a (types_of s)) (sym (ok-injective (sym eq2 ∙ eq)))
          ∙ counted
          ∙ ap (count a) types
          ∙ each_once a h;
      off = off;
      on = on;
      grouped = ap types_of (sym same) ∙ grouped;
      all_off = h_off;
      all_on = h_on;
    }
  where
    ok-injective : {a b : List AreaOrder} {x y : FruErrno} → ok a x ≡ ok b y → a ≡ b
    ok-injective h = cc

    each_once : (a : ℕ) → a ≤ apos_max → count a all_areas ≡ 1
    each_once a h = ground arith

-- A structure of the caller that has five flags, none of them set; a new one is such.
abbrev pub Blank : Option Fru → Type 0
Blank none = Unit
Blank (some fru) = fru.present ≡ false ∷ false ∷ false ∷ false ∷ false ∷ []

target-AllOk :
    (allocated : Bool) (init_fru : Option Fru) (e : FruErrno)
    → Blank init_fru
    → AllOk
        (λ fru. fru.present ≡ false ∷ false ∷ false ∷ false ∷ false ∷ [])
        (target allocated init_fru e)
target-AllOk allocated (some fru) e h = h
target-AllOk true none e h = refl
target-AllOk false none e h = tt

ok-AllOk :
    {A : Type 0} (P : A → Type 0) (o : Outcome A) {a : A} {e : FruErrno}
    → o ≡ ok a e
    → AllOk P o
    → P a
ok-AllOk P o h holds = subst (AllOk P) h holds

with_eq-AllOk :
    {A : Type 0} (P : A → Type 0) (o : Outcome A)
    → ((a : A) (e : FruErrno) → o ≡ ok a e → P a)
    → AllOk P o
with_eq-AllOk P (ok a e) h = h a e refl
with_eq-AllOk P (fail e) h = tt
with_eq-AllOk P fault h = tt

loadbuffer-AllOk :
    (allocated : Bool) (datetime_base : ℤ) (init_fru : Option Fru) (buf : Option Bytes)
    (flags : Flags) (e : FruErrno)
    → Blank init_fru
    → AllOk WellFormed (loadbuffer allocated datetime_base init_fru buf flags e)
unfolding loadbuffer
loadbuffer-AllOk allocated datetime_base init_fru buf flags e blank =
    next-AllOk WellFormed (non_null buf ferr_loc_general e) _ (λ image e1.
      next-AllOk WellFormed (find_fru_header image flags e1) _ (λ _ e2.
        bind-AllOk _ WellFormed (target allocated init_fru e2) _
          (target-AllOk allocated init_fru e2 blank)
          (λ fru e3 flags_off.
            let five : length fru.present ≡ suc apos_max = ap length flags_off in
            let off : All (Off fru.present) all_areas =
              subst (λ p. All (Off p) all_areas) (sym flags_off)
                (refl, (refl, (refl, (refl, (refl, tt))))) in
            bind-AllOk (LoadedAs all_areas fru) WellFormed
              (load_areas image datetime_base all_areas flags fru e3) _
              (load_areas-AllOk image datetime_base all_areas flags fru e3 fresh off)
              (λ r e4 h.
                bind-AllOk (λ sorted. WellFormed (record r.0 { order = types_of sorted }))
                  WellFormed (sort_areas_by_offset r.1 e4) _
                  (with_eq-AllOk _ (sort_areas_by_offset r.1 e4) (λ sorted e5 eq.
                    sorted-WellFormed r.0 r.1 sorted e4 e5 (h.size ∙ five) h.types h.pointed eq))
                  (λ sorted e5 wf. wf)))))
  where
    fresh : Fresh all_areas
    fresh = (
      (omega arith, (omega arith, (omega arith, (omega arith, tt)))),
      (
        (omega arith, (omega arith, (omega arith, tt))),
        ((omega arith, (omega arith, tt)), ((omega arith, tt), (tt, tt))),
      ),
    )

-- Whenever fru_loadbuffer succeeds, whatever the image and the flags are, for a new structure or
-- one of the caller's with five flags of which none is set, the area order that it leaves is
-- well-formed.
pub loadbuffer-WellFormed :
    (allocated : Bool) (datetime_base : ℤ) (init_fru : Option Fru) (buf : Option Bytes)
    (flags : Flags) (fru : Fru) (e e' : FruErrno)
    → Blank init_fru
    → loadbuffer allocated datetime_base init_fru buf flags e ≡ ok fru e'
    → WellFormed fru
loadbuffer-WellFormed allocated datetime_base init_fru buf flags fru e e' blank done =
    ok-AllOk WellFormed (loadbuffer allocated datetime_base init_fru buf flags e) done
      (loadbuffer-AllOk allocated datetime_base init_fru buf flags e blank)
