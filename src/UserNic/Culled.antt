-- ===== src/UserNic/Culled.antt =====
-- cull_entries, which shortens the file without writing the lines that it keeps.
use lxc.Base.{
  ℕ, ◌≡◌, refl, sym, ap, ◌∙◌, Bytes, List, [], ◌∷◌, ◌++◌, Bool, true, false, ◌||◌, if◌then◌else◌,
  length, take, any, Bool-cases, inl, inr, arith,
}
use lxc.Text.Number.{is_nil}
use lxc.UserNic.{lxc_nic_exists, Request, is_dev, kept, any_found, cull_entries, lines_found}
use lxc.UserNic.Entries.{
  Entry, AreProper, line_text, entry-line, print, lines_for, lines_found-print,
}

-- The entries whose network device is there.
unfoldable pub alive : (Bytes → Bool) → List Entry → List Entry
alive stats [] = []
alive stats (e ∷ es) =
    let rest = alive stats es in if lxc_nic_exists stats e.nic then e ∷ rest else rest

kept-lines_for :
    (stats : Bytes → Bool) (q : Request) (es : List Entry)
    → kept (lines_for stats q es) ≡ print (alive stats es)
unfolding kept lines_for alive print
kept-lines_for stats q [] = refl
kept-lines_for stats q (e ∷ es) = elim (Bool-cases (lxc_nic_exists stats e.nic)) [
  | inl h ↦ rw h (
      ap (λ t. line_text e ++ b'\n' ∷ t) (kept-lines_for stats q es)
      ∙ sym (entry-line e (print (alive stats es))))
  | inr h ↦ rw h (kept-lines_for stats q es)
]

or-any : (a b : Bool) → (a || b) ≡ (elim a [ true ↦ true | false ↦ b ])
or-any true b = refl
or-any false b = refl

any_found-lines_for :
    (stats : Bytes → Bool) (q : Request) (es : List Entry)
    → any_found (lines_for stats q es) ≡ any (λ e. is_dev q.net_dev e.nic) es
unfolding any_found lines_for
any_found-lines_for stats q [] = refl
any_found-lines_for stats q (e ∷ es) =
    ap (λ b. is_dev q.net_dev e.nic || b) (any_found-lines_for stats q es)
    ∙ or-any (is_dev q.net_dev e.nic) (any (λ e. is_dev q.net_dev e.nic) es)

full-append : (s : Bytes) (c : ℕ) (t : Bytes) → is_nil (s ++ c ∷ t) ≡ false
unfolding is_nil
full-append [] c t = refl
full-append (d ∷ s) c t = refl

pub print-full : (e : Entry) (es : List Entry) → is_nil (print (e ∷ es)) ≡ false
unfolding print
print-full e es = full-append e.owner b' ' _

cull_full :
    (stats : Bytes → Bool) (q : Request) (file : Bytes)
    → is_nil file ≡ false
    → cull_entries stats q file ≡ (
      take (length (kept (lines_found (length file) stats q file))) file,
      any_found (lines_found (length file) stats q file),
    )
unfolding cull_entries
cull_full stats q file h = rw h refl

-- For a file of entries as they are written: cull_entries cuts the file to the length of the entries
-- whose devices exist, but leaves its first bytes, whichever entries those belong to; and the device is
-- found as soon as any entry names it, of whatever user, type and link.
pub cull_entries-print :
    (stats : Bytes → Bool) (q : Request) (es : List Entry)
    → AreProper es
    → cull_entries stats q (print es)
      ≡ (take (length (print (alive stats es))) (print es), any (λ e. is_dev q.net_dev e.nic) es)
unfolding cull_entries is_nil print alive
cull_entries-print stats q [] h = refl
cull_entries-print stats q (e ∷ es) h =
    let es' = e ∷ es in
    let n = length (print es') in
    cull_full stats q (print es') (print-full e es)
    ∙ ap (λ lines. (take (length (kept lines)) (print es'), any_found lines))
        (lines_found-print stats q es' n h (omega arith))
    ∙ ap (λ t. (take (length t) (print es'), any_found (lines_for stats q es')))
        (kept-lines_for stats q es')
    ∙ ap (λ b. (take (length (print (alive stats es'))) (print es'), b))
        (any_found-lines_for stats q es')
