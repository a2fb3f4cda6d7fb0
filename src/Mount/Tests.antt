-- ===== src/Mount/Tests.antt =====
-- Options of mounts.
use lxc.Base.{ℕ, ◌≡◌, refl, Bytes, codes, [], ◌∷◌, true, false, none, some, any, All, ok}
use lxc.Text.Split.{tokens, in_word, prepend, join_parts}
use lxc.Text.Number.{is_nil}
use lxc.Text.Compare.{begins_with, strequal}
use lxc.Mount.Table.{
  Flags, has, ms_nodev, ms_rdonly, mount_attr_noatime, mount_attr_rdonly, mount_attr_nodev, lower,
}
use lxc.Mount.Legacy.{is_comma, data_of, parse_mntopts_legacy}
use lxc.Mount.Legacy.Fits.{comma, others}
use lxc.Mount.Legacy.Parsed.{last_decision, or_else, mntopts_legacy-last}
use lxc.Mount.Attrs.{parse_mount_attrs}
use lxc.Mount.Attrs.Effect.{raises, lowers}
use lxc.Mount.Attrs.Agree.{is_plain}
use lxc.Mount.Attrs.Compared.{no_options, mount_attrs-agree, ro_prefix-swallowed}

abbrev mntopts : Bytes
mntopts = codes "noatime,size=1,atime,nodev"

read_legacy :
    parse_mntopts_legacy (some mntopts) [] none ≡ ok (ms_nodev ∷ [], some (codes "size=1"))
unfolding parse_mntopts_legacy tokens in_word prepend strequal lower is_nil
read_legacy = refl

-- noatime is set although a later option takes it back.
read_attrs :
    (parse_mount_attrs no_options (some mntopts)).attr_set
    ≡ mount_attr_nodev ∷ mount_attr_noatime ∷ []
unfolding parse_mount_attrs tokens in_word prepend strequal begins_with
read_attrs = refl

mntopts-plain : All (λ opt. is_plain opt ≡ true) (tokens is_comma mntopts)
unfolding is_plain tokens in_word prepend strequal
mntopts-plain = (refl, (refl, (refl, (refl, tt))))

mntopts_legacy-last_example :
    (flags : Flags) × (parse_mntopts_legacy (some mntopts) [] none
      ≡ ok (flags, data_of (join_parts comma (others (tokens is_comma mntopts)))))
    × ((i : ℕ) → has i flags ≡ or_else false (last_decision i (tokens is_comma mntopts)))
mntopts_legacy-last_example = mntopts_legacy-last mntopts

mount_attrs-agree_example :
    (flags : Flags) × (parse_mntopts_legacy (some mntopts) [] none
      ≡ ok (flags, (parse_mount_attrs no_options (some mntopts)).fs_data))
    × ((i : ℕ) → has i (parse_mount_attrs no_options (some mntopts)).mnt_flags ≡ has i flags)
    × ((i : ℕ)
        → has i (parse_mount_attrs no_options (some mntopts)).attr_set
          ≡ any (raises i) (tokens is_comma mntopts))
    × ((i : ℕ)
        → has i (parse_mount_attrs no_options (some mntopts)).attr_clr
          ≡ any (lowers i) (tokens is_comma mntopts))
mount_attrs-agree_example = mount_attrs-agree mntopts mntopts-plain

ro_prefix-swallowed_example :
    (parse_mntopts_legacy (some (codes "rootcontext=x")) [] none
      ≡ ok ([], some (codes "rootcontext=x")))
    × (parse_mount_attrs no_options (some (codes "rootcontext=x"))
        ≡ record no_options { mnt_flags = ms_rdonly ∷ []; attr_set = mount_attr_rdonly ∷ [] })
ro_prefix-swallowed_example =
    ro_prefix-swallowed b'o' (codes "tcontext=x")
      (refl, (refl, (refl, (refl, (refl, (refl, (refl, (refl, (refl, (refl, (refl, tt)))))))))))
