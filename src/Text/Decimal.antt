-- ===== src/Text/Decimal.antt =====
-- Printing an unsigned number in decimal, as the formats %u and %lu do.
pub mod Limits
pub mod RoundTrip
use lxc.Base.{ℕ, zero, suc, ◌+◌, ◌/◌, ◌%◌, Bytes, [], ◌∷◌, ltb, if◌then◌else◌}

-- Twenty digits are enough for a number below 2^64.
unfoldable pub digits_of : ℕ → ℕ → Bytes → Bytes
digits_of zero n out = out
digits_of (suc f) n out =
    let d = b'0' + n % 10 in
    let more = digits_of f (n / 10) (d ∷ out) in if ltb n 10 then d ∷ out else more

unfoldable pub decimal : ℕ → Bytes
decimal n = digits_of 20 n []
