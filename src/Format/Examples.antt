-- ===== src/Format/Examples.antt =====
-- Some texts as they are shown.
use mapper.Prelude.{◌+◌, ◌*◌, ◌≤◌, ◌<◌, ◌≡◌, refl, arith, All, length}
use mapper.Text.{codes, decimal}
use mapper.Format.{replace_all, escape_html, ellipsed, wdhm, wdhm_parts, lz, last_two}
use mapper.Format.Escape.{Harmless, by_char, escape_html-by_char, escape_html-Harmless, ellipsed-le}
use mapper.Format.Times.{wdhm_parts_lem}

escaped : escape_html (codes "<a & b>") ≡ codes "&lt;a &amp; b&gt;"
unfolding escape_html replace_all
escaped = refl

an_hour : wdhm 3661 ≡ codes "1 ч. 1 м. 1 с."
unfolding wdhm wdhm_parts decimal
an_hour = refl

padded : lz 7 ≡ codes "07"
unfolding lz last_two decimal
padded = refl

escape_html-by_char_instance : escape_html (codes "a<b") ≡ by_char (codes "a<b")
escape_html-by_char_instance = escape_html-by_char (codes "a<b")

escape_html-Harmless_instance : All Harmless (escape_html (codes "a<b"))
escape_html-Harmless_instance = escape_html-Harmless (codes "a<b")

ellipsed-le_instance :
    (length (ellipsed (codes "switch") 5) ≤ 5)
    × (length (codes "switch") + 3 ≤ 5 → ellipsed (codes "switch") 5 ≡ codes "switch")
ellipsed-le_instance = ellipsed-le (codes "switch") 5 (omega arith)

wdhm_parts_lem_instance :
    (((wdhm_parts 3661).w * 604800
        + (wdhm_parts 3661).d * 86400
        + (wdhm_parts 3661).h * 3600
        + (wdhm_parts 3661).m * 60
        + (wdhm_parts 3661).s)
      ≡ 3661)
    × ((wdhm_parts 3661).d < 7)
    × ((wdhm_parts 3661).h < 24)
    × ((wdhm_parts 3661).m < 60)
    × ((wdhm_parts 3661).s < 60)
wdhm_parts_lem_instance = wdhm_parts_lem 3661
