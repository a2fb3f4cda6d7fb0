-- ===== src/Config/Line/Tests.antt =====
-- Lines of a configuration file.
use lxc.Base.{◌≡◌, refl, Bytes, codes, [], true, false, Option, Result, ok, arith}
use lxc.Text.Compare.{begins_with}
use lxc.Text.Trim.{is_left_blank, is_right_blank, left_gc_loop, lxc_char_left_gc, lxc_char_right_gc}
use lxc.Config.Keys.Table.{ConfigItem}
use lxc.Config.Unexpanded.{Unexpanded}
use lxc.Config.Item.{config_line}
use lxc.Config.Line.{key_value, split_equals, trim_right, parse_item, parse_line}
use lxc.Config.Line.RoundTrip.{IsKey, IsValue, parse_line-config_line}

-- Blanks and quotes are taken off.
quoted :
    parse_item (codes "  lxc.uts.name\t=  \"my name\" ")
    ≡ key_value (codes "lxc.uts.name") (codes "my name")
unfolding parse_item lxc_char_left_gc left_gc_loop is_left_blank begins_with split_equals trim_right
    lxc_char_right_gc is_right_blank
quoted = refl

abbrev accept : Option ConfigItem → Bytes → Bytes → Result (Unit {0})
accept config key value = ok tt

abbrev no_lines : Unexpanded
no_lines = record { text = []; len = 0; alloced = 0 }

uts_name-IsKey : IsKey (codes "lxc.uts.name")
unfolding begins_with is_right_blank
uts_name-IsKey = record {
  prefix = refl;
  no_equals = (
    refl,
    (refl, (refl, (refl, (refl, (refl, (refl, (refl, (refl, (refl, (refl, (refl, tt))))))))))),
  );
  trimmed = (omega arith, refl);
}

c1-IsValue : IsValue (codes "c1")
unfolding is_left_blank is_right_blank
c1-IsValue = record { first = refl; unquoted = refl; trimmed = (omega arith, refl) }

parse_line-config_line_example :
    parse_line
      (λ line. false)
      (λ i. 0)
      accept
      true
      (config_line (codes "lxc.uts.name") (codes "c1"))
      no_lines
    ≡ (ok tt, no_lines)
parse_line-config_line_example =
    parse_line-config_line (λ line. false) (λ i. 0) accept (codes "lxc.uts.name") (codes "c1")
      no_lines uts_name-IsKey c1-IsValue
