-- ===== src/Base/Results.antt =====
-- Results of the functions that return 0 or more on success and a negative errno on failure.
use Prim.Native.Char.{code}
use Prim.Native.String.{String}
use Prim.Native.Nat.{ℕ}
use mathlib.Core.Path.{◌≡◌, refl}
use mathlib.Core.List.{List, [], ◌∷◌}

-- `err e` is the return value -e.
pub data Result {ℓ} (A : Type ℓ) : Type ℓ where
  ok : A → Result A
  err : ℕ → Result A

infixl 5 ◌>>=◌
abbrev pub ◌>>=◌ {ℓ κ} : {A : Type ℓ} {B : Type κ} → Result A → (A → Result B) → Result B
ok a >>= f = f a
err e >>= f = err e

-- The predicate holds of the result, if there is one.
abbrev pub OnOk {ℓ κ} : {A : Type ℓ} → (A → Type κ) → Result A → Type κ
OnOk P (ok a) = P a
OnOk P (err e) = Unit

pub OnOk->>= {ℓ κ μ ν} :
    {A : Type ℓ} {B : Type κ} (P : A → Type μ) (Q : B → Type ν) (r : Result A) (f : A → Result B)
    → OnOk P r
    → ((a : A) → P a → OnOk Q (f a))
    → OnOk Q (r >>= f)
OnOk->>= P Q (ok a) f h k = k a h
OnOk->>= P Q (err e) f h k = tt

pub OnOk-true {ℓ} : {A : Type ℓ} (r : Result A) → OnOk {ℓ, 0} (λ _. Unit) r
OnOk-true (ok a) = tt
OnOk-true (err e) = tt

pub OnOk-intro {ℓ κ} :
    {A : Type ℓ} (P : A → Type κ) (r : Result A) → ((a : A) → r ≡ ok a → P a) → OnOk P r
OnOk-intro P (ok a) h = h a refl
OnOk-intro P (err e) h = tt

-- errno values of Linux
abbrev pub eperm : ℕ
eperm = 1

abbrev pub enoent : ℕ
enoent = 2

abbrev pub eio : ℕ
eio = 5

abbrev pub e2big : ℕ
e2big = 7

abbrev pub ebadf : ℕ
ebadf = 9

abbrev pub ebusy : ℕ
ebusy = 16

abbrev pub einval : ℕ
einval = 22

abbrev pub efbig : ℕ
efbig = 27

abbrev pub erange : ℕ
erange = 34

abbrev pub enodata : ℕ
enodata = 61

-- A C string: its bytes, without the terminating zero.
abbrev pub Bytes : Type 0
Bytes = List ℕ

-- The code points of a literal, which are its bytes where the text is ASCII.
abbrev pub codes : String → Bytes
codes String.[] = []
codes (String.◌∷◌ c s) = code c ∷ codes s
