-- ===== src/UserNic.antt =====
-- The data base of lxc-user-nic: src/lxc/cmd/lxc_user_nic.c, and lxc_nic_exists of src/lxc/utils.c.
pub mod Words
pub mod Entries
pub mod Quota
pub mod Culled
pub mod Usernet
mod Tests
use lxc.Base.{
  ℕ, zero, suc, ◌+◌, ◌-◌, ℤ, pos, negsuc, Bytes, codes, List, [], ◌∷◌, ◌++◌, Bool, true, false, not,
  ◌&&◌, ◌||◌, ◌==◌, ltb, leb, Option, none, some, if◌then◌else◌, length, take, drop,
}
use lxc.Text.Number.{is_nil}
use lxc.Text.Compare.{begins_with, strequal}
use lxc.Text.Split.{is_blank, skip_blank}
use lxc.Text.Decimal.{decimal}

-- A pointer into the buffer is what lies between it and the end of the buffer.
abbrev pub ends_line : ℕ → Bool
ends_line c = c == 0 || c == b'\n'

unfoldable pub get_eol : Bytes → Bytes
get_eol [] = []
get_eol (c ∷ s) = if ends_line c then c ∷ s else get_eol s

abbrev pub ends_word : ℕ → Bool
ends_word c = ends_line c || is_blank c

unfoldable pub get_eow : Bytes → Bytes
get_eow [] = []
get_eow (c ∷ s) = if ends_word c then c ∷ s else get_eow s

-- The bytes in front of get_eol, and in front of get_eow.
unfoldable pub line_at : Bytes → Bytes
line_at [] = []
line_at (c ∷ s) = if ends_line c then [] else c ∷ line_at s

unfoldable pub word_at : Bytes → Bytes
word_at [] = []
word_at (c ∷ s) = if ends_word c then [] else c ∷ word_at s

-- Behind the end of a word, and behind the blanks that follow.
abbrev pub next_word : Bytes → Bytes
next_word s = skip_blank (drop 1 (get_eow s))

abbrev pub ifnamsiz : ℕ
ifnamsiz = 16

-- `stats` answers stat for a name below /sys/class/net.
abbrev pub lxc_nic_exists : (Bytes → Bool) → Bytes → Bool
lxc_nic_exists stats nic = if strequal nic (codes "none") then true else stats nic

-- What a caller gets: a line, what follows it, and the three flags.
pub record Line : Type 0 where
  pub line : Bytes
  pub behind : Bytes
  pub owner : Bool
  pub found : Bool
  pub keep : Bool

pub record Request : Type 0 where
  pub name : Bytes
  pub net_type : Bytes
  pub net_link : Bytes
  pub net_dev : Option Bytes

abbrev pub is_dev : Option Bytes → Bytes → Bool
is_dev none nic = false
is_dev (some net_dev) nic = strequal nic net_dev

-- A word that is not the one asked for resets found.
abbrev pub found_at : Bytes → Bytes → Bool → Bool
found_at s word found = if begins_with s word then found else false

-- The words at `w`, `t`, `l` and `d`; a comparison stops at the end of the buffer.
abbrev pub line_of : (Bytes → Bool) → Request → Bytes → Bytes → Bytes → Bytes → Bytes → Option Line
line_of stats q s w t l d =
    if leb ifnamsiz (length (word_at d))
    then none
    else some (record {
      line = line_at s;
      behind = drop 1 (get_eol s);
      owner = begins_with w q.name && length q.name == length (word_at w);
      found =
          if is_dev q.net_dev (word_at d)
          then true
          else found_at l q.net_link (found_at t q.net_type (found_at w q.name false));
      keep = lxc_nic_exists stats (word_at d);
    })

unfoldable pub parse_line : (Bytes → Bool) → Request → Bytes → Option Line
unfolding line_at word_at get_eol get_eow skip_blank begins_with
parse_line stats q s =
    let w = skip_blank s in
    let t = next_word w in let l = next_word t in line_of stats q s w t l (next_word l)

abbrev pub is_comment : Bytes → Bool
is_comment [] = false
is_comment (c ∷ s) = c == b'#'

-- By the number of lines at most.
unfoldable pub find_line : ℕ → (Bytes → Bool) → Request → Bytes → Option Line
unfolding parse_line get_eol
find_line zero stats q s = none
find_line (suc n) stats q s =
    let rest = find_line n stats q (drop 1 (get_eol s)) in
    if is_nil (get_eol s) then none else if is_comment s then rest else parse_line stats q s

abbrev pub and_more : (Bytes → List Line) → Option Line → List Line
and_more more none = []
and_more more (some l) = l ∷ more l.behind

-- The lines that find_line returns in the loops of cull_entries and count_entries.
unfoldable pub lines_found : ℕ → (Bytes → Bool) → Request → Bytes → List Line
unfolding find_line
lines_found zero stats q s = []
lines_found (suc n) stats q s = and_more (lines_found n stats q) (find_line (length s) stats q s)

unfoldable pub count_owner : List Line → ℕ
count_owner [] = 0
count_owner (l ∷ lines) = let rest = count_owner lines in if l.owner then rest + 1 else rest

unfoldable pub count_entries : (Bytes → Bool) → Bytes → Bytes → Bytes → Bytes → ℕ
unfolding lines_found count_owner
count_entries stats buf name net_type net_link = count_owner (
    lines_found (length buf) stats
      (record { name = name; net_type = net_type; net_link = net_link; net_dev = none }) buf)

-- The lines that are kept, as they are put together in the copy of the file.
unfoldable pub kept : List Line → Bytes
kept [] = []
kept (l ∷ lines) = let rest = kept lines in if l.keep then l.line ++ b'\n' ∷ rest else rest

unfoldable pub any_found : List Line → Bool
any_found [] = false
any_found (l ∷ lines) = l.found || any_found lines

-- The file, whose length is set behind the lines, and whether the device was found.
unfoldable pub cull_entries : (Bytes → Bool) → Request → Bytes → Bytes × Bool
unfolding lines_found kept any_found
cull_entries stats q file = if is_nil file then (file, false) else (
  take (length (kept (lines_found (length file) stats q file))) file,
  any_found (lines_found (length file) stats q file),
)

pub record Alloted : Type 0 where
  pub name : Bytes
  pub allowed : ℤ

abbrev pub below : ℕ → ℤ → Bool
below count (pos allowed) = ltb count allowed
below count (negsuc allowed) = false

-- The culls in front.
unfoldable pub cull_all : (Bytes → Bool) → Bytes → Bytes → List Alloted → Bytes → Bytes
unfolding cull_entries
cull_all stats intype br [] file = file
cull_all stats intype br (n ∷ names) file =
    cull_all stats intype br names
      (cull_entries stats
        (record { name = n.name; net_type = intype; net_link = br; net_dev = none }) file).0

unfoldable pub first_below : (Bytes → Bool) → Bytes → Bytes → List Alloted → Bytes → Option Bytes
unfolding count_entries
first_below stats intype br [] file = none
first_below stats intype br (n ∷ names) file =
    let rest = first_below stats intype br names file in
    if below (count_entries stats file n.name intype br) n.allowed then some n.name else rest

abbrev pub first_name : List Alloted → Option Bytes
first_name [] = none
first_name (n ∷ names) = some n.name

abbrev pub owner_of : (Bytes → Bool) → Bytes → Bytes → List Alloted → Bytes → Option Bytes
owner_of stats intype br names file =
    if is_nil file then first_name names else first_below stats intype br names file

abbrev pub nic_template : ℕ → Bytes
nic_template uid =
    if ltb 0 uid && leb uid 65536
    then codes "veth" ++ (decimal uid ++ codes "_XXXX")
    else codes "vethXXXXXX"

-- "%s %s %s %s\n"
abbrev pub newline : Bytes → Bytes → Bytes → Bytes → Bytes
newline owner intype br nicname =
    owner ++ b' ' ∷ (intype ++ b' ' ∷ (br ++ b' ' ∷ (nicname ++ b'\n' ∷ [])))

abbrev pub nic_added : Bytes → Bytes → Bytes → Bytes → Option Bytes → Bytes × Option Bytes
nic_added file owner intype br none = (file, none)
nic_added file owner intype br (some nicname) =
    (file ++ newline owner intype br nicname, some nicname)

abbrev pub nic_for :
    (Bytes → Option Bytes) → ℕ → Bytes → Bytes → Bytes → Option Bytes → Bytes × Option Bytes
nic_for create uid intype br file none = (file, none)
nic_for create uid intype br file (some owner) =
    nic_added file owner intype br (create (nic_template uid))

-- `create` answers the template with the name of a new network device, if lxc_ifname_alnum_case_sensitive
-- and create_nic succeed. The file behind the call, and the name.
unfoldable pub get_nic_if_avail :
    (Bytes → Bool)
    → (Bytes → Option Bytes)
    → ℕ
    → List Alloted
    → Bytes
    → Bytes
    → ℤ
    → Bytes
    → Bytes × Option Bytes
unfolding cull_all first_below
get_nic_if_avail stats create uid names intype br (pos zero) file =
    (cull_all stats intype br names file, none)
get_nic_if_avail stats create uid names intype br allowed file =
    nic_for create uid intype br (cull_all stats intype br names file)
      (owner_of stats intype br names (cull_all stats intype br names file))
