-- ===== src/Errno.antt =====
-- fru_errno.h, lib/fru_errno.c and the `fru__seterr` macro of lib/fru-private.h: the error that
-- the library keeps in a thread-local variable, and the calls that may fail and set it.
pub mod Text
use frugen.Common.{ℕ, ℤ, minus_one, Option, none, some, Bool, true, false, ◌≡◌, refl}

-- fru_error_code_t
pub data ErrorCode : Type 0 where
  fenone fegeneric feinit fenonprint fenonhex ferange fenoteven feautoenc febadenc : ErrorCode
  fe2small fe2big fesize fehdrver fehdrcksum fehdrbadptr fedatacksum feareadup : ErrorCode
  feareanotsup feareabadtype fenoterm febdate fenofield fenorec febaddata fenodata : ErrorCode
  femrmgmtbad femrnotsup femrend feapos fenotempty feaenabled feadisabled felib : ErrorCode

-- fru_error_source_t: the area types, and two more. A cast from an area type is the identity.
abbrev pub ferr_loc_internal : ℕ
ferr_loc_internal = 0

abbrev pub ferr_loc_mr : ℕ
ferr_loc_mr = 4

abbrev pub ferr_loc_general : ℕ
ferr_loc_general = 5

abbrev pub ferr_loc_caller : ℕ
ferr_loc_caller = 6

-- The values of the system's `errno` that the library stores.
abbrev pub efault : ℕ
efault = 14

abbrev pub einval : ℕ
einval = 22

-- fru_errno_t, with the system's `errno` beside it.
pub record FruErrno : Type 0 where
  pub code : ErrorCode
  pub src : ℕ
  pub index : ℤ
  pub errno : ℕ

-- How a call ends: with a value, with a failure that the C code returns as `false`, `NULL` or -1
-- after it has set the error, or with an access that C leaves undefined.
pub data Outcome {ℓ} (A : Type ℓ) : Type ℓ where
  ok : A → FruErrno → Outcome A
  fail : FruErrno → Outcome A
  fault : Outcome A

abbrev pub Eff {ℓ} : Type ℓ → Type ℓ
Eff A = FruErrno → Outcome A

abbrev pub bind_outcome {ℓ κ} : {A : Type ℓ} {B : Type κ} → Outcome A → (A → Eff B) → Outcome B
bind_outcome (ok a e) f = f a e
bind_outcome (fail e) f = fail e
bind_outcome fault f = fault

-- `if (!call) return false;` and the rest.
infixl 5 ◌>>=◌ ◌>>◌
abbrev pub ◌>>=◌ {ℓ κ} : {A : Type ℓ} {B : Type κ} → Eff A → (A → Eff B) → Eff B
◌>>=◌ m f e = bind_outcome (m e) f

abbrev pub ◌>>◌ {ℓ} : {B : Type ℓ} → Eff (Unit {0}) → Eff B → Eff B
◌>>◌ m k e = bind_outcome (m e) (λ _. k)

abbrev pub pure {ℓ} : {A : Type ℓ} → A → Eff A
pure a e = ok a e

abbrev pub undefined {ℓ} : {A : Type ℓ} → Eff A
undefined e = fault

-- fru__seterr
abbrev pub with_error : ErrorCode → ℕ → ℤ → FruErrno → FruErrno
with_error err where_ idx e = record e { code = err; src = where_; index = idx }

-- The macro alone, where the code goes on, and before a failing return.
abbrev pub seterr : ErrorCode → ℕ → ℤ → Eff (Unit {0})
seterr err where_ idx e = ok tt (with_error err where_ idx e)

abbrev pub fail_with {ℓ} : {A : Type ℓ} → ErrorCode → ℕ → ℤ → Eff A
fail_with err where_ idx e = fail (with_error err where_ idx e)

-- `errno = n`
abbrev pub fail_errno {ℓ} : {A : Type ℓ} → ErrorCode → ℕ → ℤ → ℕ → Eff A
fail_errno err where_ idx n e = fail (record (with_error err where_ idx e) { errno = n })

-- The check for a NULL pointer that opens a call.
abbrev pub non_null {ℓ} : {A : Type ℓ} → Option A → ℕ → Eff A
non_null none where_ = fail_errno fegeneric where_ minus_one efault
non_null (some a) where_ = pure a

-- A pointer that is used with no check.
abbrev pub deref {ℓ} : {A : Type ℓ} → Option A → Eff A
deref none = undefined
deref (some a) = pure a

abbrev pub guard : Bool → ErrorCode → ℕ → ℤ → Eff (Unit {0})
guard true err where_ idx = pure tt
guard false err where_ idx = fail_with err where_ idx

-- What a client sees of a call without its error.
abbrev pub result {ℓ} : {A : Type ℓ} → Outcome A → Option A
result (ok a e) = some a
result (fail e) = none
result fault = none

-- The error after the call.
abbrev pub error {ℓ} : {A : Type ℓ} → Outcome A → Option FruErrno
error (ok a e) = some e
error (fail e) = some e
error fault = none

abbrev pub fru_errno_init : FruErrno
fru_errno_init = record { code = fenone; src = ferr_loc_general; index = minus_one; errno = 0 }

-- fru_clearerr
abbrev pub clearerr : Eff (Unit {0})
clearerr e = ok tt (with_error fenone ferr_loc_general minus_one e)

-- Inversion of a successful sequence.
pub bind-eq-ok {ℓ κ} :
    {A : Type ℓ} {B : Type κ} (o : Outcome A) (f : A → Eff B) {b : B} {e' : FruErrno}
    → bind_outcome o f ≡ ok b e'
    → (a : A) × (e : FruErrno) × (o ≡ ok a e) × (f a e ≡ ok b e')
bind-eq-ok (ok a e) f h = (a, e, refl, h)
bind-eq-ok (fail e) f h = cc
bind-eq-ok fault f h = cc
