-- ===== src/UserNic/Tests.antt =====
-- A data base with entries of two users, and a file of allotments.
use mathlib.Core.Path.{subst}
use mathlib.Core.List.{Memᴰ}
use mathlib.Core.List.Memᴰ
use lxc.Base.{
  none, negsuc, some-injective, leb, ◌≡◌, refl, sym, ◌⊎◌, inl, inr, pos, Bytes, codes, List, [],
  ◌∷◌, map, Bool, true, false, Option, some, any, take, length, if◌then◌else◌,
}
use lxc.Text.Number.{is_nil}
use lxc.Text.Compare.{strequal}
use lxc.Text.Split.{skip_blank, is_blank}
use lxc.UserNic.{
  Alloted, Request, is_comment, ifnamsiz, is_dev, cull_all, cull_entries, get_nic_if_avail,
}
use lxc.UserNic.Words.{IsWord}
use lxc.UserNic.Entries.{Entry, AreProper, print}
use lxc.UserNic.Culled.{alive, cull_entries-print}
use lxc.UserNic.Quota.{AreWords, Outcome, get_nic-Granted}
use lxc.UserNic.Usernet.{get_alloted, crashed, total}
use lxc.UserNic.Usernet.Groups.{is_foreign_line, alloted_to, sum_from, get_alloted-groups}

abbrev veth : Bytes
veth = codes "veth"

abbrev br : Bytes
br = codes "br0"

abbrev entry_of : Bytes → Bytes → Entry
entry_of owner nic = record { owner = owner; net_type = veth; net_link = br; nic = nic }

abbrev entries : List Entry
entries = entry_of (codes "ann") (codes "v1") ∷ entry_of (codes "bob") (codes "v2") ∷ []

br-IsWord : IsWord br
unfolding is_blank is_nil
br-IsWord = ((refl, (refl, (refl, tt))), refl)

veth-IsWord : IsWord veth
unfolding is_blank is_nil
veth-IsWord = ((refl, (refl, (refl, (refl, tt)))), refl)

entries-AreProper : AreProper entries
unfolding is_blank is_nil
entries-AreProper = (
  record {
    owner = ((refl, (refl, (refl, tt))), refl);
    no_comment = refl;
    net_type = veth-IsWord;
    net_link = br-IsWord;
    nic = ((refl, (refl, tt)), refl);
    short = refl;
  },
  (
    record {
      owner = ((refl, (refl, (refl, tt))), refl);
      no_comment = refl;
      net_type = veth-IsWord;
      net_link = br-IsWord;
      nic = ((refl, (refl, tt)), refl);
      short = refl;
    },
    tt,
  ),
)

abbrev ann : Alloted
ann = record { name = codes "ann"; allowed = pos 2 }

abbrev names : List Alloted
names = ann ∷ []

abbrev create : Bytes → Option Bytes
create template = some (codes "v3")

all_there : cull_all (λ _. true) veth br names (print entries) ≡ print entries
unfolding cull_all print skip_blank is_blank strequal is_nil
all_there = refl

ann-IsWord : IsWord (codes "ann") × (is_comment (codes "ann") ≡ false)
unfolding is_blank is_nil
ann-IsWord = (((refl, (refl, (refl, tt))), refl), refl)

owner-IsWord : (n : Alloted) → (n ≡ ann) ⊎ Memᴰ n [] → IsWord n.name × (is_comment n.name ≡ false)
owner-IsWord n (inl e) = subst (λ n. IsWord n.name × (is_comment n.name ≡ false)) (sym e) ann-IsWord
owner-IsWord n (inr m) = absurd (Memᴰ.not-nil m)

nic-IsWord : IsWord (codes "v3") × (leb ifnamsiz (length (codes "v3")) ≡ false)
unfolding is_blank is_nil
nic-IsWord = (((refl, (refl, tt)), refl), refl)

names-AreWords : AreWords create names veth br
names-AreWords = record {
  owners = λ n m. owner-IsWord n (Memᴰ.cases_cons m);
  nics = λ template nic h.
      subst (λ w. IsWord w × (leb ifnamsiz (length w) ≡ false)) (some-injective (codes "v3") nic h)
        nic-IsWord;
  net_type = veth-IsWord;
  net_link = br-IsWord;
}

get_nic-Granted_example :
    Outcome names entries veth br
      (get_nic_if_avail (λ _. true) create 1000 names veth br (pos 2) (print entries))
unfolding is_nil print
get_nic-Granted_example =
    get_nic-Granted (λ _. true) create 1000 names veth br (pos 2) (print entries) entries all_there
      refl entries-AreProper names-AreWords

abbrev request : Request
request = record { name = codes "ann"; net_type = veth; net_link = br; net_dev = some (codes "v2") }

-- v1 does not exist.
abbrev stats : Bytes → Bool
stats nic = strequal nic (codes "v2")

-- The entry of v2 is cut off although v2 exists, and v2 is found for ann.
wrong_entry_kept : cull_entries stats request (print entries) ≡ (codes "ann veth br0 v1\n", true)
unfolding cull_entries print skip_blank is_blank strequal is_nil
wrong_entry_kept = refl

cull_entries-print_example : cull_entries stats request (print entries) ≡ (
  take (length (print (alive stats entries))) (print entries),
  any (λ e. is_dev request.net_dev e.nic) entries,
)
cull_entries-print_example = cull_entries-print stats request entries entries-AreProper

abbrev lines : List Bytes
lines = codes "@staff veth br1 4\n" ∷ codes "ann veth br0 2\n" ∷ []

get_alloted-groups_example :
    get_alloted (codes "ann") veth br (some (map some (codes "users" ∷ []))) (some lines) ≡ (
      if any (is_foreign_line (codes "ann") (codes "users" ∷ [])) lines
      then crashed
      else total
          (sum_from (pos 0) (alloted_to (codes "ann") veth br (codes "users" ∷ []) lines))
          (alloted_to (codes "ann") veth br (codes "users" ∷ []) lines))
get_alloted-groups_example = get_alloted-groups (codes "ann") veth br (codes "users" ∷ []) lines

-- The sum of two allotments is beyond an int.
summed :
    get_alloted
      (codes "ann")
      veth
      br
      none
      (some (codes "ann veth br0 2147483647" ∷ codes "ann veth br0 1" ∷ []))
    ≡ total (negsuc 2147483647) (
        record { name = codes "ann"; allowed = pos 2147483647 }
        ∷ record { name = codes "ann"; allowed = pos 1 }
        ∷ [])
unfolding get_alloted lxc.UserNic.Usernet.scan_line is_blank lxc.Text.Number.is_space
    lxc.Text.Number.scan_prefixed lxc.Text.Number.scan_base lxc.Text.Number.first_is_digit
    lxc.Text.Number.digit_value strequal lxc.UserNic.Usernet.add_int lxc.Text.Number.scan_digits
summed = refl
