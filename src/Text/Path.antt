-- ===== src/Text/Path.antt =====
-- The paths of src/lxc/string_utils.c.
pub mod Components
pub mod Joined
use lxc.Base.{
  ℕ, zero, suc, Bytes, List, [], ◌∷◌, ◌++◌, map, Bool, true, false, not, ◌&&◌, ◌||◌, ◌==◌,
  if◌then◌else◌, length, get_or, take,
}
use lxc.Text.Compare.{abspath, is_empty_string}

-- `f[1] == 0 || f[1] == '/'`, for what stands behind `f`.
unfoldable pub ends_here : Bytes → Bool
ends_here [] = true
ends_here (c ∷ s) = c == b'/'

-- The loop of lxc_path_simplify: what is written from `f` on, with the flags `slash` and
-- `ignore_slash`.
unfoldable pub simplify_loop : Bool → Bool → Bytes → Bytes
simplify_loop slash ignore_slash [] = []
simplify_loop slash ignore_slash (c ∷ f) =
    let at_slash = simplify_loop true ignore_slash f in
    let skipped = simplify_loop slash ignore_slash f in
    let ignoring = simplify_loop false false f in
    let copied = simplify_loop false ignore_slash f in
    if c == b'/'
    then at_slash
    else if slash
    then if c == b'.' && ends_here f
      then skipped
      else if ignore_slash
      then c ∷ ignoring
      else b'/' ∷ c ∷ ignoring
    else c ∷ copied

-- The first byte, where it is a dot for the current directory, sets `ignore_slash`.
unfoldable pub simplify_start : Bytes → Bytes
simplify_start [] = []
simplify_start (c ∷ f) =
    if c == b'.' && ends_here f
    then simplify_loop false true f
    else simplify_loop false false (c ∷ f)

unfoldable pub lxc_path_simplify : Bytes → Bytes
lxc_path_simplify path =
    let written = simplify_start path in
    if is_empty_string path
    then path
    else if is_empty_string written
    then (if abspath path then b'/' ∷ [] else b'.' ∷ [])
    else written

unfoldable pub lxc_append_paths : Bytes → Bytes → Bytes
lxc_append_paths first second =
    if not (abspath second) then first ++ b'/' ∷ second else first ++ second

unfoldable pub must_concat : Bytes → List Bytes → Bytes
must_concat dest [] = dest
must_concat dest (cur ∷ args) = must_concat (dest ++ cur) args

unfoldable pub must_make_path : Bytes → List Bytes → Bytes
must_make_path dest [] = dest
must_make_path dest (cur ∷ args) =
    let skipped = must_make_path dest args in
    let below = must_make_path (dest ++ b'/' ∷ cur) args in
    let behind = must_make_path (dest ++ cur) args in
    if length cur == 0 then skipped else if not (abspath cur) then below else behind

unfoldable pub must_append_path : Bytes → List Bytes → Bytes
must_append_path dest [] = dest
must_append_path dest (cur ∷ args) =
    let below = must_append_path (dest ++ b'/' ∷ cur) args in
    let behind = must_append_path (dest ++ cur) args in if not (abspath cur) then below else behind

-- The loop from the end: `l` bytes are left.
unfoldable pub slashes_loop : ℕ → Bytes → Bytes
slashes_loop zero p = take 0 p
slashes_loop (suc l) p =
    let more = slashes_loop l p in
    if get_or p l 0 == b'/' || get_or p l 0 == b'\n' then more else take (suc l) p

unfoldable pub remove_trailing_slashes : Bytes → Bytes
remove_trailing_slashes p = slashes_loop (length p) p
