-- ===== src/Text/Path/Components.antt =====
-- Paths as lists of components.
use lxc.Base.{
  ℕ, ◌≡◌, refl, ap, ◌∙◌, Bytes, List, [], ◌∷◌, ◌++◌, Bool, true, false, not, ◌&&◌, ◌==◌,
  if◌then◌else◌, Bool-cases, inl, inr, arith,
}
use lxc.Text.Compare.{abspath, is_empty_string, strequal}
use lxc.Text.Split.{tokens, prepend}
use lxc.Text.Split.RoundTrip.{tokens-skip, tokens-grow, tokens-end, in_word-cons, in_word-nil}
use lxc.Text.Path.{ends_here, simplify_loop, simplify_start, lxc_path_simplify}

abbrev pub is_slash : ℕ → Bool
is_slash c = c == b'/'

-- The components of a path.
abbrev pub components : Bytes → List Bytes
components path = tokens is_slash path

-- Those that do not stand for the current directory.
abbrev pub no_dots : List Bytes → List Bytes
no_dots [] = []
no_dots (t ∷ ts) = if strequal t (b'.' ∷ []) then no_dots ts else t ∷ no_dots ts

-- Each component behind a slash.
abbrev pub slashed : List Bytes → Bytes
slashed [] = []
slashed (t ∷ ts) = b'/' ∷ (t ++ slashed ts)

-- A slash between components.
abbrev pub joined : List Bytes → Bytes
joined [] = []
joined (t ∷ ts) = t ++ slashed ts

abbrev pub kept : Bytes → List Bytes
kept path = no_dots (components path)

-- The first word, and what follows it.
abbrev word : Bytes → Bytes
word [] = []
word (c ∷ s) = if is_slash c then [] else c ∷ word s

abbrev behind_word : Bytes → Bytes
behind_word [] = []
behind_word (c ∷ s) = if is_slash c then c ∷ s else behind_word s

components-word :
    (c : ℕ) (s : Bytes)
    → is_slash c ≡ false
    → components (c ∷ s) ≡ (c ∷ word s) ∷ components (behind_word s)
components-word c [] h = tokens-end is_slash c [] h (in_word-nil is_slash)
components-word c (d ∷ s) h = elim (Bool-cases (is_slash d)) [
  | inl e ↦ tokens-end is_slash c (d ∷ s) h (in_word-cons is_slash d s ∙ ap not e) ∙ rw e refl
  | inr e ↦
      tokens-grow is_slash c (d ∷ s) h (in_word-cons is_slash d s ∙ ap not e)
      ∙ rw (components-word d s e, e) (unfold prepend in refl)
]

dot-ends :
    (c : ℕ) (s : Bytes)
    → is_slash c ≡ false
    → strequal (c ∷ word s) (b'.' ∷ []) ≡ (c == b'.' && ends_here s)
unfolding strequal ends_here
dot-ends c [] h = ground arith
dot-ends c (d ∷ s) h = ground arith

kept-slash : (c : ℕ) (s : Bytes) → is_slash c ≡ true → kept (c ∷ s) ≡ kept s
kept-slash c s h = ap no_dots (tokens-skip is_slash c s h)

kept-word :
    (c : ℕ) (s : Bytes)
    → is_slash c ≡ false
    → kept (c ∷ s) ≡ (
        if c == b'.' && ends_here s
        then kept (behind_word s)
        else (c ∷ word s) ∷ kept (behind_word s))
kept-word c s h = ap no_dots (components-word c s h) ∙ rw (dot-ends c s h) refl

-- Where a component ends, nothing of it is left.
ends-behind : (s : Bytes) → ends_here s ≡ true → behind_word s ≡ s
unfolding ends_here
ends-behind [] h = refl
ends-behind (c ∷ s) h = rw h refl

kept-dot :
    (c : ℕ) (s : Bytes)
    → is_slash c ≡ false
    → (c == b'.' && ends_here s) ≡ true
    → kept (c ∷ s) ≡ kept s
kept-dot c s h d = kept-word c s h ∙ rw d (ap kept (ends-behind s (ground arith)))

kept-other :
    (c : ℕ) (s : Bytes)
    → is_slash c ≡ false
    → (c == b'.' && ends_here s) ≡ false
    → kept (c ∷ s) ≡ (c ∷ word s) ∷ kept (behind_word s)
kept-other c s h d = kept-word c s h ∙ rw d refl

-- What the loop writes behind a slash, and within a component.
record IsWritten (s : Bytes) : Type 0 where
  behind_slash : simplify_loop true false s ≡ slashed (kept s)
  ignoring : simplify_loop true true s ≡ joined (kept s)
  within : simplify_loop false false s ≡ word s ++ slashed (kept (behind_word s))

loop-IsWritten : (s : Bytes) → IsWritten s
unfolding simplify_loop
loop-IsWritten [] = record {
  behind_slash = unfold tokens in refl;
  ignoring = unfold tokens in refl;
  within = unfold tokens in refl;
}
loop-IsWritten (c ∷ s) =
    let ih = loop-IsWritten s in
    elim (Bool-cases (is_slash c)) [
      | inl e ↦ record {
        behind_slash = rw (e, kept-slash c s e) ih.behind_slash;
        ignoring = rw (e, kept-slash c s e) ih.ignoring;
        within = rw (e, kept-slash c s e) ih.behind_slash;
      }
      | inr e ↦ elim (Bool-cases (c == b'.' && ends_here s)) [
        | inl d ↦ record {
          behind_slash = rw (e, d, kept-dot c s e d) ih.behind_slash;
          ignoring = rw (e, d, kept-dot c s e d) ih.ignoring;
          within = rw e (ap (λ (t : Bytes). c ∷ t) ih.within);
        }
        | inr d ↦ record {
          behind_slash = rw (e, d, kept-other c s e d) (ap (λ (t : Bytes). b'/' ∷ c ∷ t) ih.within);
          ignoring = rw (e, d, kept-other c s e d) (ap (λ (t : Bytes). c ∷ t) ih.within);
          within = rw e (ap (λ (t : Bytes). c ∷ t) ih.within);
        }
      ]
    ]

slash_is_no_dot : (c : ℕ) (s : Bytes) → is_slash c ≡ true → (c == b'.' && ends_here s) ≡ false
slash_is_no_dot c s e = ground arith

-- At the start, where the flag `slash` is not set.
slash-first :
    (ignore_slash : Bool) (c : ℕ) (s : Bytes)
    → is_slash c ≡ true
    → simplify_loop false ignore_slash (c ∷ s) ≡ simplify_loop true ignore_slash (c ∷ s)
unfolding simplify_loop
slash-first ignore_slash c s e = rw e refl

ignoring-first : (s : Bytes) → ends_here s ≡ true → simplify_loop false true s ≡ joined (kept s)
unfolding ends_here
ignoring-first [] h = unfold simplify_loop tokens in refl
ignoring-first (c ∷ s) h = slash-first true c s h ∙ (loop-IsWritten (c ∷ s)).ignoring

start-written :
    (c : ℕ) (s : Bytes)
    → simplify_start (c ∷ s)
      ≡ (if is_slash c then slashed (kept (c ∷ s)) else joined (kept (c ∷ s)))
unfolding simplify_start
start-written c s = elim (Bool-cases (is_slash c)) [
  | inl e ↦
      rw (slash_is_no_dot c s e, e)
        (slash-first false c s e ∙ (loop-IsWritten (c ∷ s)).behind_slash)
  | inr e ↦ elim (Bool-cases (c == b'.' && ends_here s)) [
    | inl d ↦ rw (d, e, kept-dot c s e d) (ignoring-first s (ground arith))
    | inr d ↦
        rw (d, e, kept-other c s e d)
          (unfold simplify_loop in rw e (ap (λ (t : Bytes). c ∷ t) (loop-IsWritten s).within))
  ]
]

-- The components that are kept, from the root where the path is absolute.
abbrev pub body : Bytes → Bytes
body path = if abspath path then slashed (kept path) else joined (kept path)

-- lxc_path_simplify joins the components of a path other than `.` by one slash each, behind a slash
-- where the path is absolute; where that is the empty string, the result is `/` for an absolute path
-- and `.` for another one, and the empty path is left as it is.
pub path_simplify-components :
    (path : Bytes)
    → lxc_path_simplify path ≡ (
        if is_empty_string path
        then []
        else if is_empty_string (body path)
        then (if abspath path then b'/' ∷ [] else b'.' ∷ [])
        else body path)
unfolding lxc_path_simplify is_empty_string
path_simplify-components [] = refl
path_simplify-components (c ∷ s) = unfold abspath in rw (start-written c s) refl
