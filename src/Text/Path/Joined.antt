-- ===== src/Text/Path/Joined.antt =====
-- The components of paths that are put together.
use lxc.Base.{
  ℕ, ◌≡◌, refl, ap, sym, ◌∙◌, Bytes, List, [], ◌∷◌, ◌++◌, append_assoc, append-nil, true, false,
  ◌==◌, Bool-cases, inl, inr, arith, length,
}
use mathlib.Core.Bool.{false≢true}
use lxc.Text.Compare.{abspath}
use lxc.Text.Split.{tokens}
use lxc.Text.Split.RoundTrip.{tokens-append, tokens-skip}
use lxc.Text.Path.{lxc_append_paths, must_make_path, must_append_path}
use lxc.Text.Path.Components.{is_slash, components}

components-join :
    (a : Bytes) (b : Bytes) → components (a ++ b'/' ∷ b) ≡ components a ++ components b
components-join a b = tokens-append is_slash a b'/' b refl

components-behind :
    (a b : Bytes) → abspath b ≡ true → components (a ++ b) ≡ components a ++ components b
unfolding abspath
components-behind a [] h = absurd (false≢true h)
components-behind a (c ∷ b) h =
    tokens-append is_slash a c b h
    ∙ ap (λ (ts : List Bytes). components a ++ ts) (sym (tokens-skip is_slash c b h))

-- The components of each argument in turn.
abbrev pub all_components : List Bytes → List Bytes
all_components [] = []
all_components (cur ∷ args) = components cur ++ all_components args

append_args :
    (dest : Bytes) (cur : Bytes) (args : List Bytes) (joint : Bytes)
    → components joint ≡ components dest ++ components cur
    → components joint ++ all_components args ≡ components dest ++ all_components (cur ∷ args)
append_args dest cur args joint e =
    rw e (append_assoc (components dest) (components cur) (all_components args))

cons_filled : (c : ℕ) (t : Bytes) → (length (c ∷ t) == 0) ≡ false
cons_filled c t = ground arith

-- The components of the path that must_make_path makes are those of its arguments, in their order,
-- whether or not an argument begins with a slash, ends with one, or is empty.
make_path-components :
    (dest : Bytes) (args : List Bytes)
    → components (must_make_path dest args) ≡ components dest ++ all_components args
unfolding must_make_path
make_path-components dest [] = sym (append-nil (components dest))
make_path-components dest ([] ∷ args) = make_path-components dest args ∙ unfold tokens in refl
make_path-components dest ((c ∷ t) ∷ args) = elim (Bool-cases (abspath (c ∷ t))) [
  | inl e ↦
      rw (cons_filled c t, e, make_path-components (dest ++ c ∷ t) args)
        (append_args dest (c ∷ t) args (dest ++ c ∷ t) (components-behind dest (c ∷ t) e))
  | inr e ↦
      rw (cons_filled c t, e, make_path-components (dest ++ b'/' ∷ c ∷ t) args)
        (append_args dest (c ∷ t) args (dest ++ b'/' ∷ c ∷ t) (components-join dest (c ∷ t)))
]

-- The components of the path that must_append_path makes are those of its arguments, in their order.
append_path-components :
    (dest : Bytes) (args : List Bytes)
    → components (must_append_path dest args) ≡ components dest ++ all_components args
unfolding must_append_path
append_path-components dest [] = sym (append-nil (components dest))
append_path-components dest (cur ∷ args) = elim (Bool-cases (abspath cur)) [
  | inl e ↦
      rw (e, append_path-components (dest ++ cur) args)
        (append_args dest cur args (dest ++ cur) (components-behind dest cur e))
  | inr e ↦
      rw (e, append_path-components (dest ++ b'/' ∷ cur) args)
        (append_args dest cur args (dest ++ b'/' ∷ cur) (components-join dest cur))
]

-- The components of lxc_append_paths are those of the first path, and behind them those of the
-- second.
append_paths-components :
    (first second : Bytes)
    → components (lxc_append_paths first second) ≡ components first ++ components second
unfolding lxc_append_paths
append_paths-components first second = elim (Bool-cases (abspath second)) [
  | inl e ↦ rw e (components-behind first second e)
  | inr e ↦ rw e (components-join first second)
]

-- The components of the paths that must_make_path and must_append_path make are those of their
-- arguments, in their order, whether or not an argument begins with a slash, ends with one, or is
-- empty; the components of lxc_append_paths are those of the first path, and behind them those of
-- the second.
pub joined-components :
    (dest : Bytes) (args : List Bytes) (first second : Bytes)
    → (components (must_make_path dest args) ≡ components dest ++ all_components args)
      × (components (must_append_path dest args) ≡ components dest ++ all_components args)
      × (components (lxc_append_paths first second) ≡ components first ++ components second)
joined-components dest args first second = (
  make_path-components dest args,
  append_path-components dest args,
  append_paths-components first second,
)
