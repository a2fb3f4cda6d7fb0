-- ===== src/Text/Tests.antt =====
-- The strings at concrete values.
use lxc.Base.{
  ◌*◌, ◌++◌, ◌^◌, ltb, ok, err, einval, erange, pos, true, arith, ◌≡◌, refl, Bytes, codes, List, [],
  ◌∷◌, if◌then◌else◌,
}
use lxc.Text.Compare.{is_empty_string, abspath}
use lxc.Text.Trim.{parse_byte_size_string}
use lxc.Text.Trim.Sizes.{byte_size-decimal, scaled}
use lxc.Text.Decimal.{decimal}
use lxc.Text.Decimal.Limits.{parsers-decimal}
use lxc.Text.Number.{signed, lxc_safe_ulong, lxc_safe_uint, lxc_safe_int, lxc_safe_long}
use lxc.Text.Path.{lxc_path_simplify, must_make_path, must_append_path, lxc_append_paths}
use lxc.Text.Path.Components.{body, path_simplify-components}

abbrev words : List Bytes
words = codes "sys" ∷ codes "net" ∷ []

abbrev messy : Bytes
messy = codes "//var/./lib//lxc/."

path_simplify-components_example : lxc_path_simplify messy ≡ (
    if is_empty_string messy
    then []
    else if is_empty_string (body messy)
    then (if abspath messy then b'/' ∷ [] else b'.' ∷ [])
    else body messy)
path_simplify-components_example = path_simplify-components messy

simplified : lxc_path_simplify messy ≡ codes "/var/lib/lxc"
unfolding lxc_path_simplify lxc.Text.Path.simplify_start lxc.Text.Path.simplify_loop
    lxc.Text.Path.ends_here is_empty_string abspath
simplified = refl

-- The first number that is no unsigned int.
parsers-decimal_example :
    (lxc_safe_ulong (decimal 4294967296)
      ≡ (if ltb 4294967296 (2 ^ 64) then ok 4294967296 else err erange))
    × (lxc_safe_uint (decimal 4294967296)
        ≡ (if ltb 4294967296 (2 ^ 32) then ok 4294967296 else err erange))
    × (lxc_safe_long (decimal 4294967296)
        ≡ (if ltb 4294967296 (2 ^ 63) then ok (pos 4294967296) else err erange))
    × (lxc_safe_int (decimal 4294967296)
        ≡ (if ltb 4294967296 (2 ^ 31) then ok (pos 4294967296) else err erange))
    × (lxc_safe_ulong (b'-' ∷ decimal 4294967296) ≡ err einval)
    × (lxc_safe_uint (b'-' ∷ decimal 4294967296) ≡ err einval)
    × (lxc_safe_long (b'-' ∷ decimal 4294967296)
        ≡ (if ltb (2 ^ 63) 4294967296 then err erange else ok (signed true 4294967296)))
    × (lxc_safe_int (b'-' ∷ decimal 4294967296)
        ≡ (if ltb (2 ^ 31) 4294967296 then err erange else ok (signed true 4294967296)))
parsers-decimal_example = parsers-decimal 4294967296 (omega arith)

-- 2^33 GB are 2^63 bytes, one more than there are.
byte_size-decimal_example :
    (parse_byte_size_string (decimal 8589934592 ++ codes "kB") ≡ scaled 8589934592 1024)
    × (parse_byte_size_string (decimal 8589934592 ++ codes "MB") ≡ scaled 8589934592 (1024 * 1024))
    × (parse_byte_size_string (decimal 8589934592 ++ codes "GB")
        ≡ scaled 8589934592 (1024 * 1024 * 1024))
byte_size-decimal_example = byte_size-decimal 8589934592 (omega arith)
