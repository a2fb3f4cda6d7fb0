-- ===== src/Text/Number/Bounds.antt =====
-- What the number parsers accept fits the type of the result.
use lxc.Base.{
  ℕ, ◌^◌, ◌<◌, ◌≡◌, ℤ, pos, negsuc, Bytes, Bool, Result, OnOk, OnOk-intro, ok, err, einval,
  if◌then◌else◌, true, false, ◌>>=◌, refl, arith,
}
use lxc.Text.Number.{
  lxc_safe_uint, lxc_safe_uint64, lxc_safe_ulong, lxc_safe_int, lxc_safe_long, Scanned, scan_signed,
  strtoul_checked, ulong_of, long_of, check_uint, check_int, signed, skip_space, starts_with_minus,
}

-- The values of an integer of 2^n numbers, half of them below 0.
abbrev pub FitsSigned : ℕ → ℤ → Type 0
FitsSigned half (pos v) = v < half
FitsSigned half (negsuc v) = v < half

ulong_of-lt : (n : Bool × Scanned) (v : ℕ) → ulong_of n ≡ ok v → v < 2 ^ 64
unfolding ulong_of
ulong_of-lt n v h = ground arith

pub long_of-FitsSigned : (n : Bool × Scanned) (v : ℤ) → long_of n ≡ ok v → FitsSigned (2 ^ 63) v
unfolding long_of signed
long_of-FitsSigned n (pos v) h = ground arith
long_of-FitsSigned n (negsuc v) h = ground arith

check_uint-lt : (u v : ℕ) → check_uint u ≡ ok v → v < 2 ^ 32
unfolding check_uint
check_uint-lt u v h = ground arith

check_int-FitsSigned : (u v : ℤ) → check_int u ≡ ok v → FitsSigned (2 ^ 31) v
unfolding check_int
check_int-FitsSigned (pos n) v h = ground arith
check_int-FitsSigned (negsuc n) v h = ground arith

>>=-eq-ok {ℓ} :
    {A : Type ℓ} {B : Type ℓ} (m : Result A) (f : A → Result B) (b : B)
    → (m >>= f) ≡ ok b
    → (a : A) × (m ≡ ok a) × (f a ≡ ok b)
>>=-eq-ok (ok a) f b h = (a, refl, h)
>>=-eq-ok (err e) f b h = cc

unless-eq-ok {ℓ} :
    {A : Type ℓ} (b : Bool) (e : ℕ) (m : Result A) (v : A)
    → (if b then err e else m) ≡ ok v
    → m ≡ ok v
unless-eq-ok true e m v h = cc
unless-eq-ok false e m v h = h

safe_uint-lt : (s : Bytes) (u : ℕ) → lxc_safe_uint s ≡ ok u → u < 2 ^ 32
unfolding lxc_safe_uint
safe_uint-lt s u h =
    let n = strtoul_checked 0 (skip_space s) in
    let (v, _, e) =
      >>=-eq-ok n check_uint u
        (unless-eq-ok (starts_with_minus (skip_space s)) einval (n >>= check_uint) u h) in
    check_uint-lt v u e

strtoul_checked-lt : (base : ℕ) (s : Bytes) (v : ℕ) → strtoul_checked base s ≡ ok v → v < 2 ^ 64
unfolding strtoul_checked
strtoul_checked-lt base s v h = ulong_of-lt (scan_signed base (skip_space s)) v h

safe_ulong-lt : (s : Bytes) (u : ℕ) → lxc_safe_ulong s ≡ ok u → u < 2 ^ 64
unfolding lxc_safe_ulong
safe_ulong-lt s u h =
    strtoul_checked-lt 0 (skip_space s) u
      (unless-eq-ok (starts_with_minus (skip_space s)) einval _ u h)

safe_uint64-lt : (s : Bytes) (base u : ℕ) → lxc_safe_uint64 s base ≡ ok u → u < 2 ^ 64
unfolding lxc_safe_uint64
safe_uint64-lt s base u h =
    strtoul_checked-lt base (skip_space s) u
      (unless-eq-ok (starts_with_minus (skip_space s)) einval _ u h)

safe_long-FitsSigned : (s : Bytes) (i : ℤ) → lxc_safe_long s ≡ ok i → FitsSigned (2 ^ 63) i
unfolding lxc_safe_long
safe_long-FitsSigned s i h = long_of-FitsSigned (scan_signed 0 (skip_space s)) i h

safe_int-FitsSigned : (s : Bytes) (i : ℤ) → lxc_safe_int s ≡ ok i → FitsSigned (2 ^ 31) i
unfolding lxc_safe_int
safe_int-FitsSigned s i h =
    let (v, _, e) = >>=-eq-ok (lxc_safe_long s) check_int i h in check_int-FitsSigned v i e

-- A number that a parser accepts is a value of the parser's result type, so nothing was cut off.
pub parsers_bounds :
    (s : Bytes) (base : ℕ)
    → OnOk (λ u. u < 2 ^ 32) (lxc_safe_uint s)
      × OnOk (λ u. u < 2 ^ 64) (lxc_safe_ulong s)
      × OnOk (λ u. u < 2 ^ 64) (lxc_safe_uint64 s base)
      × OnOk (FitsSigned (2 ^ 31)) (lxc_safe_int s)
      × OnOk (FitsSigned (2 ^ 63)) (lxc_safe_long s)
parsers_bounds s base = (
  OnOk-intro _ _ (safe_uint-lt s),
  OnOk-intro _ _ (safe_ulong-lt s),
  OnOk-intro _ _ (safe_uint64-lt s base),
  OnOk-intro _ _ (safe_int-FitsSigned s),
  OnOk-intro _ _ (safe_long-FitsSigned s),
)
