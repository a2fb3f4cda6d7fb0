-- ===== src/UserNic/Entries.antt =====
-- The lines that get_nic_if_avail writes, as find_line reads them.
use lxc.Base.{
  ℕ, zero, suc, ◌+◌, ◌-◌, ◌≤◌, ◌≡◌, refl, sym, ap, ◌∙◌, Bytes, List, [], ◌∷◌, ◌++◌, append_assoc,
  Bool, true, false, leb, some, if◌then◌else◌, length, length-append, drop, All, Bool-cases, inl,
  inr, arith,
}
use mathlib.Core.Bool.{false≢true}
use lxc.Text.Number.{is_nil}
use lxc.Text.Compare.{strequal, begins_with}
use lxc.Text.Split.{is_blank, skip_blank}
use lxc.UserNic.{
  ends_line, get_eol, line_at, word_at, next_word, lxc_nic_exists, Line, Request, is_dev, found_at,
  line_of, parse_line, is_comment, find_line, lines_found, and_more, ifnamsiz,
}
use lxc.UserNic.Words.{
  IsWord, get_eow-word, word_at-word, get_eol-line, line_at-line, skip_blank-word, word-no_end,
  All-append, owner-strequal,
}

pub record Entry : Type 0 where
  pub owner : Bytes
  pub net_type : Bytes
  pub net_link : Bytes
  pub nic : Bytes

-- An entry that lxc-user-nic writes for a user whose name is no comment.
pub record IsProper (e : Entry) : Type 0 where
  pub owner : IsWord e.owner
  pub no_comment : is_comment e.owner ≡ false
  pub net_type : IsWord e.net_type
  pub net_link : IsWord e.net_link
  pub nic : IsWord e.nic
  pub short : leb ifnamsiz (length e.nic) ≡ false

abbrev pub line_text : Entry → Bytes
line_text e = e.owner ++ b' ' ∷ (e.net_type ++ b' ' ∷ (e.net_link ++ b' ' ∷ e.nic))

-- The entry in front of the rest of the file.
abbrev pub entry : Entry → Bytes → Bytes
entry e rest =
    e.owner ++ b' ' ∷ (e.net_type ++ b' ' ∷ (e.net_link ++ b' ' ∷ (e.nic ++ b'\n' ∷ rest)))

unfoldable pub print : List Entry → Bytes
print [] = []
print (e ∷ es) = entry e (print es)

pub entry-line : (e : Entry) (rest : Bytes) → entry e rest ≡ line_text e ++ b'\n' ∷ rest
entry-line e rest = sym (
    append_assoc e.owner (b' ' ∷ (e.net_type ++ b' ' ∷ (e.net_link ++ b' ' ∷ e.nic))) (b'\n' ∷ rest)
    ∙ ap (λ s. e.owner ++ b' ' ∷ s)
        (append_assoc e.net_type (b' ' ∷ (e.net_link ++ b' ' ∷ e.nic)) (b'\n' ∷ rest)
          ∙ ap (λ s. e.net_type ++ b' ' ∷ s)
              (append_assoc e.net_link (b' ' ∷ e.nic) (b'\n' ∷ rest))))

line_text-no_end : (e : Entry) → IsProper e → All (λ c. ends_line c ≡ false) (line_text e)
line_text-no_end e p = All-append e.owner _ (word-no_end e.owner p.owner.0) (
  refl,
  All-append e.net_type _ (word-no_end e.net_type p.net_type.0) (
    refl,
    All-append e.net_link _ (word-no_end e.net_link p.net_link.0) (refl, word-no_end e.nic p.nic.0),
  ),
)

next_word-word : (w v r : Bytes) → IsWord w → IsWord v → next_word (w ++ b' ' ∷ (v ++ r)) ≡ v ++ r
unfolding is_blank
next_word-word w v r h k =
    ap (λ s. skip_blank (drop 1 s)) (get_eow-word w b' ' (v ++ r) h.0 refl) ∙ skip_blank-word v r k

found_at-false : (s word : Bytes) → found_at s word false ≡ false
found_at-false s word = elim (Bool-cases (begins_with s word)) [
  | inl e ↦ rw e refl
  | inr e ↦ rw e refl
]

no_comment : (w r : Bytes) → is_nil w ≡ false → is_comment w ≡ false → is_comment (w ++ r) ≡ false
unfolding is_nil
no_comment [] r h k = absurd (false≢true (sym h))
no_comment (c ∷ w) r h k = k

find_line-step :
    (n : ℕ) (stats : Bytes → Bool) (q : Request) (s : Bytes) (c : ℕ) (r : Bytes)
    → get_eol s ≡ c ∷ r
    → is_comment s ≡ false
    → find_line (suc n) stats q s ≡ parse_line stats q s
unfolding find_line is_nil
find_line-step n stats q s c r h k = rw (h, k) refl

-- What is found for an entry.
abbrev pub line_for : (Bytes → Bool) → Request → Entry → Bytes → Line
line_for stats q e rest = record {
  line = line_text e;
  behind = rest;
  owner = strequal q.name e.owner;
  found = is_dev q.net_dev e.nic;
  keep = lxc_nic_exists stats e.nic;
}

test_itself : (b : Bool) → (if b then true else false) ≡ b
test_itself true = refl
test_itself false = refl

module _ (stats : Bytes → Bool) (q : Request) (e : Entry) (rest : Bytes) (p : IsProper e) where
  at_link : Bytes
  at_link = e.net_link ++ b' ' ∷ (e.nic ++ b'\n' ∷ rest)

  at_type : Bytes
  at_type = e.net_type ++ b' ' ∷ at_link

  at_nic : Bytes
  at_nic = e.nic ++ b'\n' ∷ rest

  words_found :
      parse_line stats q (entry e rest)
      ≡ line_of stats q (entry e rest) (entry e rest) at_type at_link at_nic
  unfolding parse_line at_type at_link at_nic
  words_found =
      let s = entry e rest in
      ap
        (λ w.
          line_of stats q s w (next_word w) (next_word (next_word w))
            (next_word (next_word (next_word w))))
        (skip_blank-word e.owner (b' ' ∷ at_type) p.owner)
      ∙ ap (λ t. line_of stats q s s t (next_word t) (next_word (next_word t)))
          (next_word-word e.owner e.net_type (b' ' ∷ at_link) p.owner p.net_type)
      ∙ ap (λ l. line_of stats q s s at_type l (next_word l))
          (next_word-word e.net_type e.net_link (b' ' ∷ at_nic) p.net_type p.net_link)
      ∙ ap (line_of stats q s s at_type at_link)
          (next_word-word e.net_link e.nic (b'\n' ∷ rest) p.net_link p.nic)

  entry-get_eol : get_eol (entry e rest) ≡ b'\n' ∷ rest
  entry-get_eol =
      ap get_eol (entry-line e rest) ∙ get_eol-line (line_text e) rest (line_text-no_end e p)

  entry-line_at : line_at (entry e rest) ≡ line_text e
  entry-line_at =
      ap line_at (entry-line e rest) ∙ line_at-line (line_text e) rest (line_text-no_end e p)

  not_found :
      (t l : Bytes)
      → found_at l q.net_link (found_at t q.net_type (found_at (entry e rest) q.name false)) ≡ false
  not_found t l =
      rw (found_at-false (entry e rest) q.name, found_at-false t q.net_type)
        (found_at-false l q.net_link)

  parse_line-entry : parse_line stats q (entry e rest) ≡ some (line_for stats q e rest)
  unfolding at_nic at_link at_type is_blank begins_with strequal word_at
  parse_line-entry =
      words_found
      ∙ (rw
          (
            word_at-word e.nic b'\n' rest p.nic.0 refl,
            p.short,
            entry-line_at,
            entry-get_eol,
            word_at-word e.owner b' ' at_type p.owner.0 refl,
            owner-strequal q.name e.owner at_type b' ',
            not_found at_type at_link,
            test_itself (is_dev q.net_dev e.nic),
          )
          refl)

  entry-no_comment : is_comment (entry e rest) ≡ false
  unfolding at_type at_link
  entry-no_comment = no_comment e.owner (b' ' ∷ at_type) p.owner.1 p.no_comment

  pub find_line-entry :
      (n : ℕ) → find_line (suc n) stats q (entry e rest) ≡ some (line_for stats q e rest)
  find_line-entry n =
      find_line-step n stats q (entry e rest) b'\n' rest entry-get_eol entry-no_comment
      ∙ parse_line-entry

abbrev pub AreProper : List Entry → Type 0
AreProper = All IsProper

unfoldable pub lines_for : (Bytes → Bool) → Request → List Entry → List Line
unfolding print
lines_for stats q [] = []
lines_for stats q (e ∷ es) = line_for stats q e (print es) ∷ lines_for stats q es

entry-length : (e : Entry) (rest : Bytes) → length rest + 1 ≤ length (entry e rest)
entry-length e rest = omega (
  arith,
  length-append e.owner
      (b' ' ∷ (e.net_type ++ b' ' ∷ (e.net_link ++ b' ' ∷ (e.nic ++ b'\n' ∷ rest)))),
  length-append e.net_type (b' ' ∷ (e.net_link ++ b' ' ∷ (e.nic ++ b'\n' ∷ rest))),
  length-append e.net_link (b' ' ∷ (e.nic ++ b'\n' ∷ rest)),
  length-append e.nic (b'\n' ∷ rest),
)

lines_found-nil : (n : ℕ) (stats : Bytes → Bool) (q : Request) → lines_found n stats q [] ≡ []
unfolding lines_found find_line
lines_found-nil zero stats q = refl
lines_found-nil (suc n) stats q = refl

lines_found-entry :
    (stats : Bytes → Bool) (q : Request) (e : Entry) (rest : Bytes) (n k : ℕ)
    → IsProper e
    → length (entry e rest) ≡ suc k
    → lines_found (suc n) stats q (entry e rest)
      ≡ line_for stats q e rest ∷ lines_found n stats q rest
unfolding lines_found
lines_found-entry stats q e rest n k p h =
    ap (λ m. and_more (lines_found n stats q) (find_line m stats q (entry e rest))) h
    ∙ ap (and_more (lines_found n stats q)) (find_line-entry stats q e rest p k)

-- The entries of a file are found one by one.
pub lines_found-print :
    (stats : Bytes → Bool) (q : Request) (es : List Entry) (n : ℕ)
    → AreProper es
    → length (print es) ≤ n
    → lines_found n stats q (print es) ≡ lines_for stats q es
unfolding print lines_for
lines_found-print stats q [] n h l = lines_found-nil n stats q
lines_found-print stats q (e ∷ es) zero (h, hs) l =
    absurd (omega (arith, entry-length e (print es)))
lines_found-print stats q (e ∷ es) (suc n) (h, hs) l =
    let bound = entry-length e (print es) in
    lines_found-entry stats q e (print es) n (length (entry e (print es)) - 1) h
      (omega (arith, bound))
    ∙ ap (λ t. line_for stats q e (print es) ∷ t)
        (lines_found-print stats q es n hs (omega (arith, bound)))
