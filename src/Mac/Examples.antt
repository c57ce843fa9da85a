-- ===== src/Mac/Examples.antt =====
-- An address in several forms, and the theorems on forms at it.
use mapper.Prelude.{◌≡◌, refl, some, none}
use mapper.Text.{codes, at_end}
use mapper.Mac.{
  parse_mac, format_mac, View, match_mac, match_groups, hex_pair, glue, lower, show_groups,
  skip_separator, between,
}
use mapper.Mac.Formats.{parse_mac-format_mac, format_mac-format_mac}

cisco_form : format_mac View.cisco (codes "00:1A:2b-3C.4d5e") ≡ codes "001a.2b3c.4d5e"
unfolding format_mac match_mac match_groups hex_pair glue lower show_groups skip_separator between
    at_end
cisco_form = refl

parsed : parse_mac (codes "00:1A:2b-3C.4d5e") ≡ some (codes "001a2b3c4d5e")
unfolding parse_mac match_mac match_groups hex_pair glue lower skip_separator between at_end
parsed = refl

too_short : parse_mac (codes "00:1A:2b-3C.4d") ≡ none
unfolding parse_mac match_mac match_groups hex_pair glue lower skip_separator between at_end
too_short = refl

parse_mac-format_mac_example :
    parse_mac (format_mac View.huawei (codes "00:1A:2b-3C.4d5e"))
    ≡ parse_mac (codes "00:1A:2b-3C.4d5e")
parse_mac-format_mac_example = parse_mac-format_mac View.huawei (codes "00:1A:2b-3C.4d5e")

format_mac-format_mac_instance :
    format_mac View.canonic (format_mac View.cisco (codes "00:1A:2b-3C.4d5e"))
    ≡ format_mac View.canonic (codes "00:1A:2b-3C.4d5e")
format_mac-format_mac_instance =
    format_mac-format_mac View.canonic View.cisco (codes "00:1A:2b-3C.4d5e") (λ e. cc)
