-- ===== src/UserNic/Usernet/Groups.antt =====
-- What get_alloted returns, and when it crashes.
use lxc.Base.{
  ◌≡◌, refl, sym, ap, ◌∙◌, ℤ, pos, Bytes, List, [], ◌∷◌, ◌++◌, append_assoc, append-nil, map, Bool,
  true, false, not, ◌&&◌, ◌||◌, ◌==◌, Option, none, some, if◌then◌else◌, any, any-cons, Bool-cases,
  inl, inr,
}
use lxc.Text.Compare.{strequal}
use lxc.UserNic.{Alloted}
use lxc.UserNic.Usernet.{
  UsernetLine, scan_line, add_int, Answer, answer, crash, in_groupnames, name_is_in_groupnames,
  is_mine, Total, total, crashed, alloted_by, with_line, alloted_loop, get_alloted,
}

abbrev pub is_group : List Bytes → Bytes → Bool
is_group gs name = any (λ g. strequal name g) gs

-- The name of the caller, or an at sign and a group of the caller.
abbrev pub is_own : Bytes → List Bytes → Bytes → Bool
is_own me gs [] = false
is_own me gs (c ∷ name) = strequal (c ∷ name) me || (c == b'@' && is_group gs name)

-- An at sign and a group of which the caller is no member.
abbrev pub is_foreign : Bytes → List Bytes → Bytes → Bool
is_foreign me gs [] = false
is_foreign me gs (c ∷ name) = not (strequal (c ∷ name) me) && (c == b'@' && not (is_group gs name))

abbrev foreign_of : Bytes → List Bytes → Option UsernetLine → Bool
foreign_of me gs none = false
foreign_of me gs (some l) = is_foreign me gs l.name

-- The line has four fields, of which the first one names such a group.
unfoldable pub is_foreign_line : Bytes → List Bytes → Bytes → Bool
unfolding strequal
is_foreign_line me gs line = foreign_of me gs (scan_line line)

module _ (me intype link : Bytes) (gs : List Bytes) where
  abbrev applies : UsernetLine → Bool
  applies l = is_own me gs l.name && (strequal l.net_type intype && strequal link l.br)

  abbrev alloted_of : Option UsernetLine → List Alloted → List Alloted
  alloted_of none rest = rest
  alloted_of (some l) rest =
      if applies l then record { name = l.name; allowed = l.n } ∷ rest else rest

  -- The lines for the caller, with the type and the link that are asked for.
  unfoldable pub alloted_to : List Bytes → List Alloted
  unfolding strequal
  alloted_to [] = []
  alloted_to (line ∷ lines) = alloted_of (scan_line line) (alloted_to lines)

-- The sum, in additions of ints.
unfoldable pub sum_from : ℤ → List Alloted → ℤ
sum_from count [] = count
sum_from count (n ∷ names) = sum_from (add_int count n.allowed) names

in_groupnames-map :
    (name : Bytes) (gs : List Bytes)
    → in_groupnames name (map some gs) ≡ (if is_group gs name then answer true else crash)
unfolding in_groupnames
in_groupnames-map name [] = refl
in_groupnames-map name (g ∷ gs) = elim (Bool-cases (strequal name g)) [
  | inl e ↦ rw (any-cons (λ g. strequal name g) g gs, e) refl
  | inr e ↦ rw (any-cons (λ g. strequal name g) g gs, e) (in_groupnames-map name gs)
]

-- The answer for a name.
abbrev verdict : Bool → Bool → Answer
verdict foreign own = if foreign then crash else answer own

decided :
    (own at member : Bool)
    → (if own
        then answer true
        else (if at then (if member then answer true else crash) else answer false))
      ≡ verdict (not own && (at && not member)) (own || (at && member))
decided true at member = refl
decided false true true = refl
decided false true false = refl
decided false false member = refl

is_mine-verdict :
    (me : Bytes) (gs : List Bytes) (name : Bytes)
    → is_mine me (some (map some gs)) name ≡ verdict (is_foreign me gs name) (is_own me gs name)
unfolding name_is_in_groupnames
is_mine-verdict me gs [] = refl
is_mine-verdict me gs (c ∷ name) =
    ap
      (λ a. if strequal (c ∷ name) me then answer true else (if c == b'@' then a else answer false))
      (in_groupnames-map name gs)
    ∙ decided (strequal (c ∷ name) me) (c == b'@') (is_group gs name)

module _ (me intype link : Bytes) (gs : List Bytes) where
  -- What is expected behind the lines.
  abbrev expected : Bool → ℤ → List Alloted → List Alloted → Total
  expected foreign count alloted more =
      if foreign then crashed else total (sum_from count more) (alloted ++ more)

  loop : List Bytes → Total → Total
  loop = alloted_loop me intype link (some (map some gs))

  loop-crashed : (lines : List Bytes) → loop lines crashed ≡ crashed
  unfolding loop alloted_loop
  loop-crashed [] = refl
  loop-crashed (line ∷ lines) = refl

  regroup :
      (foreign : Bool) (count : ℤ) (alloted rest : List Alloted) (n : Alloted)
      → expected foreign (add_int count n.allowed) (alloted ++ n ∷ []) rest
        ≡ expected foreign count alloted (n ∷ rest)
  unfolding sum_from
  regroup true count alloted rest n = refl
  regroup false count alloted rest n =
      ap (total (sum_from (add_int count n.allowed) rest)) (append_assoc alloted (n ∷ []) rest)

  module _ (lines : List Bytes)
      (ih : (count : ℤ) (alloted : List Alloted)
        → loop lines (total count alloted)
          ≡ expected
              (any (is_foreign_line me gs) lines)
              count
              alloted
              (alloted_to me intype link gs lines))
      (count : ℤ) (alloted : List Alloted) where
    read-expected :
        (l : UsernetLine)
        → loop lines (
            alloted_by intype link l
              (verdict (is_foreign me gs l.name) (is_own me gs l.name))
              (total count alloted))
          ≡ expected
              (is_foreign me gs l.name || any (is_foreign_line me gs) lines)
              count
              alloted
              (alloted_of me intype link gs (some l) (alloted_to me intype link gs lines))
    read-expected l = elim (Bool-cases (is_foreign me gs l.name)) [
      | inl e ↦ rw e (loop-crashed lines)
      | inr e ↦ elim (Bool-cases (is_own me gs l.name)) [
        | inl o ↦ elim (Bool-cases (strequal l.net_type intype && strequal link l.br)) [
          | inl t ↦
              let n : Alloted = record { name = l.name; allowed = l.n } in
              rw (e, o, t)
                (ih (add_int count l.n) (alloted ++ n ∷ [])
                  ∙ regroup (any (is_foreign_line me gs) lines) count alloted
                      (alloted_to me intype link gs lines) n)
          | inr t ↦ rw (e, o, t) (ih count alloted)
        ]
        | inr o ↦ rw (e, o) (ih count alloted)
      ]
    ]

    line-expected :
        (o : Option UsernetLine)
        → loop lines (with_line me intype link (some (map some gs)) o (total count alloted))
          ≡ expected
              (foreign_of me gs o || any (is_foreign_line me gs) lines)
              count
              alloted
              (alloted_of me intype link gs o (alloted_to me intype link gs lines))
    line-expected none = ih count alloted
    line-expected (some l) =
        ap (λ a. loop lines (alloted_by intype link l a (total count alloted)))
          (is_mine-verdict me gs l.name)
        ∙ read-expected l

  loop-expected :
      (lines : List Bytes) (count : ℤ) (alloted : List Alloted)
      → loop lines (total count alloted)
        ≡ expected
            (any (is_foreign_line me gs) lines)
            count
            alloted
            (alloted_to me intype link gs lines)
  unfolding loop alloted_loop alloted_to sum_from is_foreign_line
  loop-expected [] count alloted = ap (total count) (sym (append-nil alloted))
  loop-expected (line ∷ lines) count alloted =
      line-expected lines (loop-expected lines) count alloted (scan_line line)
      ∙ ap (λ b. expected b count alloted (alloted_to me intype link gs (line ∷ lines)))
          (sym (any-cons (is_foreign_line me gs) line lines))

  -- For a caller with groups that all have names, and a file that can be opened: get_alloted crashes as
  -- soon as some line has four fields of which the first one is an at sign and a group of which the
  -- caller is no member, whatever its type and link are. Otherwise the allotments are those of the lines
  -- for the caller and its groups, with the type and the link that are asked for, in their order, and
  -- their sum is returned, as an int that wraps around. Their numbers are ints as well.
  pub get_alloted-groups :
      (lines : List Bytes)
      → get_alloted me intype link (some (map some gs)) (some lines) ≡ (
          if any (is_foreign_line me gs) lines
          then crashed
          else total
              (sum_from (pos 0) (alloted_to me intype link gs lines))
              (alloted_to me intype link gs lines))
  unfolding get_alloted loop
  get_alloted-groups lines = loop-expected lines (pos 0) []
