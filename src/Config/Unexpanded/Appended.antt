-- ===== src/Config/Unexpanded/Appended.antt =====
-- A line is added to the configuration as it was written.
use lxc.Base.{
  ℕ, zero, suc, ◌+◌, ◌<◌, ◌≡◌, refl, sym, ap, ◌∙◌, Bytes, List, [], ◌∷◌, ◌++◌, false, leb, length,
  length-append, append_assoc, take, take_all, All, Bool-cases, inl, inr, arith,
}
use lxc.Config.Unexpanded.{Unexpanded, enlarge, ends_newline, append_updated}
use lxc.Config.Unexpanded.Lines.{IsLine, unlines, IsLines, length-line}

enlarge-Fits : (fuel need alloced : ℕ) → need < alloced + fuel → need < enlarge fuel need alloced
unfolding enlarge
enlarge-Fits zero need alloced lt = omega arith
enlarge-Fits (suc fuel) need alloced lt = elim (Bool-cases (leb alloced need)) [
  | inl t ↦ rw t (enlarge-Fits fuel need (alloced + 1024) (omega arith))
  | inr f ↦ rw f (ground arith)
]

line-ends_newline : (line : Bytes) → IsLine line → ends_newline line ≡ false
unfolding ends_newline
line-ends_newline [] i = refl
line-ends_newline (c ∷ []) (n, i) = n
line-ends_newline (c ∷ d ∷ line) (n, i) = line-ends_newline (d ∷ line) i

unlines-append :
    (lines : List Bytes) (line : Bytes)
    → unlines (lines ++ line ∷ []) ≡ unlines lines ++ (line ++ b'\n' ∷ [])
unlines-append [] line = refl
unlines-append (first ∷ lines) line =
    ap (λ t. first ++ b'\n' ∷ t) (unlines-append lines line)
    ∙ sym (append_assoc first (b'\n' ∷ unlines lines) (line ++ b'\n' ∷ []))

All-last :
    (lines : List Bytes) (line : Bytes)
    → All IsLine lines
    → IsLine line
    → All IsLine (lines ++ line ∷ [])
All-last [] line a i = (i, tt)
All-last (first ∷ lines) line (f, a) i = (f, All-last lines line a i)

pub appended-IsLines :
    (line : Bytes) (lines : List Bytes) (conf : Unexpanded)
    → IsLine line
    → IsLines lines conf
    → IsLines (lines ++ line ∷ []) (append_updated line conf)
appended-IsLines line lines conf i r =
    let text : take conf.len conf.text ++ (line ++ b'\n' ∷ []) ≡ unlines (lines ++ line ∷ []) =
      rw (r.text, r.len, take_all (length (unlines lines)) (unlines lines) (omega arith))
        (sym (unlines-append lines line)) in
    let len : conf.len + length (line ++ b'\n' ∷ []) ≡ length (unlines (lines ++ line ∷ [])) =
      rw (r.len, unlines-append lines line)
        (sym (length-append (unlines lines) (line ++ b'\n' ∷ []))) in
    let l = length-line line [] in
    let fits =
      enlarge-Fits (conf.len + length line + 3) (conf.len + length line + 2) conf.alloced
        (omega arith) in
    rw (line-ends_newline line i) (record {
      text = text;
      len = len;
      whole = All-last lines line r.whole i;
      room = inr (omega (arith, l, fits));
    })
