-- ===== src/Drawn/Match.antt =====
-- The regular expressions of `add_device` of map-broker/www/mapper.js, on texts as lists of character
-- codes.
use mapper.Prelude.{
  ℕ, ◌+◌, Option, none, some, Bool, true, false, not, ◌&&◌, ◌||◌, [], ◌∷◌, if◌then◌else◌, ◌==◌, leb,
}
use mapper.Text.{Text, codes, is_digit}

-- One character in lower case, as `/i` compares
abbrev lower_case : ℕ → ℕ
lower_case c = if leb 65 c && leb c 90 then c + 32 else c

lowered : Text → Text
lowered [] = []
lowered (c ∷ cs) = lower_case c ∷ lowered cs

-- What follows a text at the start
unfoldable pub strip : Text → Text → Option Text
strip [] cs = some cs
strip (p ∷ ps) [] = none
strip (p ∷ ps) (c ∷ cs) = if p == c then strip ps cs else none

abbrev is_some : Option Text → Bool
is_some none = false
is_some (some t) = true

-- A match at some position
anywhere : (Text → Bool) → Text → Bool
anywhere p [] = p []
anywhere p (c ∷ cs) = p (c ∷ cs) || anywhere p cs

-- `.` is no line end.
abbrev ends_line : ℕ → Bool
ends_line c = (c == 10) || (c == 13) || (c == 8232) || (c == 8233)

-- `.*` and a text
later : Text → Text → Bool
unfolding strip
later p [] = is_some (strip p [])
later p (c ∷ cs) = is_some (strip p (c ∷ cs)) || (not (ends_line c) && later p cs)

abbrev after_word : Text → Option Text → Bool
after_word p none = false
after_word p (some rest) = later p rest

-- `/power.*sensor/i`
unfoldable pub power_sensor_alias : Text → Bool
unfolding anywhere later lowered strip
power_sensor_alias t =
    anywhere (λ cs. after_word (codes "sensor") (strip (codes "power") cs)) (lowered t)

-- `/alert/i` and `/hide/`
unfoldable pub alert_alias : Text → Bool
unfolding anywhere lowered strip
alert_alias t = anywhere (λ cs. is_some (strip (codes "alert") cs)) (lowered t)

unfoldable pub hide_alias : Text → Bool
unfolding anywhere strip
hide_alias t = anywhere (λ cs. is_some (strip (codes "hide") cs)) t

abbrev comma_or_space : Text → Bool
comma_or_space [] = false
comma_or_space (c ∷ cs) = ((c == 44) || (c == 32)) && is_some (strip (codes "show_all") cs)

-- `/[, ]show_all/i`
unfoldable pub show_all_location : Text → Bool
unfolding anywhere lowered strip
show_all_location t = anywhere comma_or_space (lowered t)

-- `\w`
abbrev is_word : ℕ → Bool
is_word c = is_digit c || (leb 65 c && leb c 90) || (leb 97 c && leb c 122) || (c == 95)

abbrev no_word_next : Option Text → Bool
no_word_next none = false
no_word_next (some []) = true
no_word_next (some (c ∷ cs)) = not (is_word c)

abbrev rps_here : Text → Bool
rps_here cs = no_word_next (strip (codes "rps") cs)

abbrev rps_after : Text → Bool
rps_after [] = false
rps_after (c ∷ cs) = not (is_word c) && rps_here cs

-- `/(?:^|\W)rps(?:\W|$)/i`
unfoldable pub rps_location : Text → Bool
unfolding anywhere lowered strip
rps_location t = rps_here (lowered t) || anywhere rps_after (lowered t)

-- `/^(?:BD|Vl|CPU port)/` and `/^BD/`
unfoldable pub logical_name : Text → Bool
unfolding strip
logical_name t =
    is_some (strip (codes "BD") t)
    || is_some (strip (codes "Vl") t)
    || is_some (strip (codes "CPU port") t)

unfoldable pub bridge_name : Text → Bool
unfolding strip
bridge_name t = is_some (strip (codes "BD") t)

-- `\d*$`, and `\d*\/\d+$`
digits_only : Text → Bool
digits_only [] = true
digits_only (c ∷ cs) = is_digit c && digits_only cs

abbrev some_digits : Text → Bool
some_digits [] = false
some_digits (c ∷ cs) = is_digit c && digits_only cs

digits_slash : Text → Bool
unfolding digits_only
digits_slash [] = false
digits_slash (c ∷ cs) = ((c == 47) && some_digits cs) || (is_digit c && digits_slash cs)

abbrev port_number : Option Text → Bool
port_number none = false
port_number (some t) = some_digits t

abbrev epon_number : Option Text → Bool
epon_number none = false
epon_number (some []) = false
epon_number (some (c ∷ cs)) = is_digit c && digits_slash cs

-- `/^Po\d+$/` and `/^EPON\d+\/\d+$/`
unfoldable pub port_channel_name : Text → Bool
unfolding strip digits_only
port_channel_name t = port_number (strip (codes "Po") t)

unfoldable pub epon_name : Text → Bool
unfolding strip digits_slash
epon_name t = epon_number (strip (codes "EPON") t)
