-- ===== src/UserNic/Quota.antt =====
-- get_nic_if_avail and the number of devices that a user may have.
use lxc.Base.{
  some-injective, ℕ, zero, suc, ◌+◌, ◌≤◌, ◌<◌, ◌≡◌, refl, sym, ap, ◌∙◌, ◌⊎◌, inl, inr, ℤ, pos,
  negsuc, Bytes, List, [], ◌∷◌, ◌++◌, append_assoc, Bool, true, false, leb, ltb→lt, Option, none,
  some, if◌then◌else◌, length, Bool-cases, arith,
}
use mathlib.Core.Path.{subst}
use mathlib.Core.Bool.{false≢true}
use mathlib.Core.List.{Memᴰ}
use lxc.Text.Number.{is_nil}
use lxc.Text.Compare.{strequal, strequal_iff}
use lxc.UserNic.{
  ifnamsiz, is_comment, count_owner, count_entries, Alloted, below, cull_all, first_below,
  nic_template, newline, nic_added, nic_for, get_nic_if_avail, Request,
}
use lxc.UserNic.Words.{IsWord}
use lxc.UserNic.Entries.{
  Entry, IsProper, AreProper, entry-line, line_text, print, lines_for, lines_found-print,
}

-- The entries of a user.
unfoldable pub owned : Bytes → List Entry → ℕ
unfolding strequal
owned name [] = 0
owned name (e ∷ es) = let rest = owned name es in if strequal name e.owner then rest + 1 else rest

count_owner-lines_for :
    (stats : Bytes → Bool) (q : Request) (es : List Entry)
    → count_owner (lines_for stats q es) ≡ owned q.name es
unfolding count_owner lines_for owned
count_owner-lines_for stats q [] = refl
count_owner-lines_for stats q (e ∷ es) = elim (Bool-cases (strequal q.name e.owner)) [
  | inl h ↦ rw h (ap (λ n. n + 1) (count_owner-lines_for stats q es))
  | inr h ↦ rw h (count_owner-lines_for stats q es)
]

-- count_entries counts the entries of the user, of every type and link.
pub count_entries-print :
    (stats : Bytes → Bool) (es : List Entry) (name net_type net_link : Bytes)
    → AreProper es
    → count_entries stats (print es) name net_type net_link ≡ owned name es
unfolding count_entries
count_entries-print stats es name net_type net_link h =
    let q : Request = record {
      name = name;
      net_type = net_type;
      net_link = net_link;
      net_dev = none;
    } in
    ap count_owner (lines_found-print stats q es (length (print es)) h (omega arith))
    ∙ count_owner-lines_for stats q es

strequal_self : (s : Bytes) → strequal s s ≡ true
strequal_self s = (strequal_iff s s).1 refl

owned-added :
    (name : Bytes) (es : List Entry) (e : Entry)
    → e.owner ≡ name
    → owned name (es ++ e ∷ []) ≡ owned name es + 1
unfolding owned
owned-added name [] e h = rw (h, strequal_self name) refl
owned-added name (d ∷ es) e h = elim (Bool-cases (strequal name d.owner)) [
  | inl k ↦ rw k (ap (λ n. n + 1) (owned-added name es e h))
  | inr k ↦ rw k (owned-added name es e h)
]

below-pos : (n : ℕ) (allowed : ℤ) → below n allowed ≡ true → (a : ℕ) × (allowed ≡ pos a) × (n < a)
below-pos n (pos a) h = (a, refl, ltb→lt n a h)
below-pos n (negsuc a) h = absurd (false≢true h)

print-added :
    (es : List Entry) (e : Entry)
    → print es ++ newline e.owner e.net_type e.net_link e.nic ≡ print (es ++ e ∷ [])
unfolding print
print-added [] e = refl
print-added (d ∷ es) e =
    let more = newline e.owner e.net_type e.net_link e.nic in
    ap (λ s. s ++ more) (entry-line d (print es))
    ∙ append_assoc (line_text d) (b'\n' ∷ print es) more
    ∙ ap (λ s. line_text d ++ b'\n' ∷ s) (print-added es e)
    ∙ sym (entry-line d (print (es ++ e ∷ [])))

-- The new entry is within what one of the names is alloted.
pub record Granted (names : List Alloted) (es : List Entry) (e : Entry) : Type 0 where
  pub n : Alloted
  pub mem : Memᴰ n names
  pub owner : e.owner ≡ n.name
  pub within : (a : ℕ) × (n.allowed ≡ pos a) × (owned n.name (es ++ e ∷ []) ≤ a)

some-ne-none : (a : Bytes) → none ≡ some a → ⊥
some-ne-none a h = cc

-- The allotment that the search comes to.
abbrev Chosen : List Entry → List Alloted → Bytes → Type 0
Chosen es names name =
    (n : Alloted) × Memᴰ n names × (name ≡ n.name) × (below (owned n.name es) n.allowed ≡ true)

module _ (stats : Bytes → Bool) (intype br : Bytes) (es : List Entry) (proper : AreProper es) where
  chosen :
      (names : List Alloted) (name : Bytes)
      → first_below stats intype br names (print es) ≡ some name
      → Chosen es names name
  unfolding first_below
  chosen [] name h = absurd (some-ne-none name h)
  chosen (n ∷ names) name h =
      elim (Bool-cases (below (count_entries stats (print es) n.name intype br) n.allowed)) [
        | inl b ↦ (
          n,
          Memᴰ.head refl,
          sym (some-injective n.name name (rw b at h)),
          ap (λ c. below c n.allowed) (sym (count_entries-print stats es n.name intype br proper))
              ∙ b,
        )
        | inr b ↦
            let rest = chosen names name (rw b at h) in (rest.0, Memᴰ.tail rest.1, rest.2, rest.3)
      ]

-- The file is as it was, or has one more entry, which is granted.
abbrev pub Outcome : List Alloted → List Entry → Bytes → Bytes → Bytes × Option Bytes → Type 0
Outcome names es intype br r =
    (r ≡ (print es, none))
    ⊎ ((e : Entry) × (r ≡ (print (es ++ e ∷ []), some e.nic))
        × IsProper e
        × (e.net_type ≡ intype)
        × (e.net_link ≡ br)
        × Granted names es e)

-- The names of users and of network devices, and the words of the request.
pub record AreWords (create : Bytes → Option Bytes) (names : List Alloted) (intype br : Bytes)
    : Type 0 where
  pub owners : (n : Alloted) → Memᴰ n names → IsWord n.name × (is_comment n.name ≡ false)
  pub nics :
      (template nic : Bytes)
      → create template ≡ some nic
      → IsWord nic × (leb ifnamsiz (length nic) ≡ false)
  pub net_type : IsWord intype
  pub net_link : IsWord br

module _ (create : Bytes → Option Bytes) (uid : ℕ) (names : List Alloted) (intype br : Bytes)
    (es : List Entry) (words : AreWords create names intype br) where
  within_limit :
      (n : Alloted) (e : Entry)
      → e.owner ≡ n.name
      → below (owned n.name es) n.allowed ≡ true
      → (a : ℕ) × (n.allowed ≡ pos a) × (owned n.name (es ++ e ∷ []) ≤ a)
  within_limit n e o b =
      let room = below-pos (owned n.name es) n.allowed b in
      (room.0, room.1, omega (arith, owned-added n.name es e o, room.2))

  added :
      (name : Bytes) (made : Option Bytes)
      → create (nic_template uid) ≡ made
      → Chosen es names name
      → Outcome names es intype br (nic_added (print es) name intype br made)
  added name none m c = inl refl
  added name (some nic) m (n, mem, o, b) =
      let e : Entry = record { owner = name; net_type = intype; net_link = br; nic = nic } in
      let is_nic = words.nics (nic_template uid) nic m in
      let is_owner = words.owners n mem in
      inr (
        e,
        ap (λ s. (s, some nic)) (print-added es e),
        record {
          owner = subst IsWord (sym o) is_owner.0;
          no_comment = ap is_comment o ∙ is_owner.1;
          net_type = words.net_type;
          net_link = words.net_link;
          nic = is_nic.0;
          short = is_nic.1;
        },
        refl,
        refl,
        record { n = n; mem = mem; owner = o; within = within_limit n e o b },
      )

  for_owner :
      (o : Option Bytes)
      → ((name : Bytes) → o ≡ some name → Chosen es names name)
      → Outcome names es intype br (nic_for create uid intype br (print es) o)
  for_owner none h = inl refl
  for_owner (some name) h = added name (create (nic_template uid)) refl (h name refl)

-- For a file of entries as they are written, that is not empty once the allotted names are culled, and
-- names and words without blanks: get_nic_if_avail leaves that file as it is and returns no name, or it
-- adds one entry at the end, for the network device that it returns, with the type and the link of the
-- request and the name of one of the allotments; and that name then has no more entries in the file,
-- of every type and link, than its allotment allows.
pub get_nic-Granted :
    (stats : Bytes → Bool) (create : Bytes → Option Bytes) (uid : ℕ) (names : List Alloted)
    (intype br : Bytes) (allowed : ℤ) (file : Bytes) (es : List Entry)
    → cull_all stats intype br names file ≡ print es
    → is_nil (print es) ≡ false
    → AreProper es
    → AreWords create names intype br
    → Outcome names es intype br (get_nic_if_avail stats create uid names intype br allowed file)
unfolding get_nic_if_avail
get_nic-Granted stats create uid names intype br (pos zero) file es c f p w = inl (rw c refl)
get_nic-Granted stats create uid names intype br (pos (suc n)) file es c f p w =
    rw (c, f)
      (for_owner create uid names intype br es w (first_below stats intype br names (print es))
        (chosen stats intype br es p names))
get_nic-Granted stats create uid names intype br (negsuc n) file es c f p w =
    rw (c, f)
      (for_owner create uid names intype br es w (first_below stats intype br names (print es))
        (chosen stats intype br es p names))
