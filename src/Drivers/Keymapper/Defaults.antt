-- ===== src/Drivers/Keymapper/Defaults.antt =====
-- The lines of `DEFAULT_MAPPING` in kernel/src/drivers/keymapper.rs.
use navi_os.Base.{ℕ, List, [], ◌∷◌, ◌++◌, Outcome}
use navi_os.Drivers.Keyboard.Codes
use navi_os.Drivers.Keyboard.Codes.{KeyCode}
use navi_os.Drivers.Keyboard.KeyFlags
use navi_os.Drivers.Keymapper.{Line, KeyMapping, create_mapping, blank_mapping}

abbrev key : KeyCode → ℕ → ℕ → Line
key code flags char = record { code = code; flags = flags; char = char }

abbrev pub letter_lines : List Line
letter_lines =
    key Codes.key_q 0 b'q'
    ∷ key Codes.key_q KeyFlags.caps_lock b'Q'
    ∷ key Codes.key_w 0 b'w'
    ∷ key Codes.key_w KeyFlags.caps_lock b'W'
    ∷ key Codes.key_e 0 b'e'
    ∷ key Codes.key_e KeyFlags.caps_lock b'E'
    ∷ key Codes.key_r 0 b'r'
    ∷ key Codes.key_r KeyFlags.caps_lock b'R'
    ∷ key Codes.key_t 0 b't'
    ∷ key Codes.key_t KeyFlags.caps_lock b'T'
    ∷ key Codes.key_y 0 b'y'
    ∷ key Codes.key_y KeyFlags.caps_lock b'Y'
    ∷ key Codes.key_u 0 b'u'
    ∷ key Codes.key_u KeyFlags.caps_lock b'U'
    ∷ key Codes.key_i 0 b'i'
    ∷ key Codes.key_i KeyFlags.caps_lock b'I'
    ∷ key Codes.key_o 0 b'o'
    ∷ key Codes.key_o KeyFlags.caps_lock b'O'
    ∷ key Codes.key_p 0 b'p'
    ∷ key Codes.key_p KeyFlags.caps_lock b'P'
    ∷ key Codes.key_a 0 b'a'
    ∷ key Codes.key_a KeyFlags.caps_lock b'A'
    ∷ key Codes.key_s 0 b's'
    ∷ key Codes.key_s KeyFlags.caps_lock b'S'
    ∷ key Codes.key_d 0 b'd'
    ∷ key Codes.key_d KeyFlags.caps_lock b'D'
    ∷ key Codes.key_f 0 b'f'
    ∷ key Codes.key_f KeyFlags.caps_lock b'F'
    ∷ key Codes.key_g 0 b'g'
    ∷ key Codes.key_g KeyFlags.caps_lock b'G'
    ∷ key Codes.key_h 0 b'h'
    ∷ key Codes.key_h KeyFlags.caps_lock b'H'
    ∷ key Codes.key_j 0 b'j'
    ∷ key Codes.key_j KeyFlags.caps_lock b'J'
    ∷ key Codes.key_k 0 b'k'
    ∷ key Codes.key_k KeyFlags.caps_lock b'K'
    ∷ key Codes.key_l 0 b'l'
    ∷ key Codes.key_l KeyFlags.caps_lock b'L'
    ∷ key Codes.key_z 0 b'z'
    ∷ key Codes.key_z KeyFlags.caps_lock b'Z'
    ∷ key Codes.key_x 0 b'x'
    ∷ key Codes.key_x KeyFlags.caps_lock b'X'
    ∷ key Codes.key_c 0 b'c'
    ∷ key Codes.key_c KeyFlags.caps_lock b'C'
    ∷ key Codes.key_v 0 b'v'
    ∷ key Codes.key_v KeyFlags.caps_lock b'V'
    ∷ key Codes.key_b 0 b'b'
    ∷ key Codes.key_b KeyFlags.caps_lock b'B'
    ∷ key Codes.key_n 0 b'n'
    ∷ key Codes.key_n KeyFlags.caps_lock b'N'
    ∷ key Codes.key_m 0 b'm'
    ∷ key Codes.key_m KeyFlags.caps_lock b'M'
    ∷ []

-- The digits and the other keys.
abbrev pub other_lines : List Line
other_lines =
    key Codes.key1 0 b'1'
    ∷ key Codes.key1 KeyFlags.shift b'!'
    ∷ key Codes.key1 KeyFlags.alt 161
    ∷ key Codes.key2 0 b'2'
    ∷ key Codes.key2 KeyFlags.shift b'@'
    ∷ key Codes.key2 KeyFlags.alt 178
    ∷ key Codes.key3 0 b'3'
    ∷ key Codes.key3 KeyFlags.shift b'#'
    ∷ key Codes.key3 KeyFlags.alt 179
    ∷ key Codes.key4 0 b'4'
    ∷ key Codes.key4 KeyFlags.shift b'$'
    ∷ key Codes.key5 0 b'5'
    ∷ key Codes.key5 KeyFlags.shift b'%'
    ∷ key Codes.key6 0 b'6'
    ∷ key Codes.key6 KeyFlags.shift b'^'
    ∷ key Codes.key7 0 b'7'
    ∷ key Codes.key7 KeyFlags.shift b'&'
    ∷ key Codes.key8 0 b'8'
    ∷ key Codes.key8 KeyFlags.shift b'*'
    ∷ key Codes.key9 0 b'9'
    ∷ key Codes.key9 KeyFlags.shift b'('
    ∷ key Codes.key0 0 b'0'
    ∷ key Codes.key0 KeyFlags.shift b')'
    ∷ key Codes.minus 0 b'-'
    ∷ key Codes.minus KeyFlags.shift b'_'
    ∷ key Codes.equals 0 b'='
    ∷ key Codes.equals KeyFlags.shift b'+'
    ∷ key Codes.backspace 0 8
    ∷ key Codes.tab 0 9
    ∷ key Codes.return 0 10
    ∷ key Codes.space 0 32
    ∷ key Codes.left_brace 0 b'['
    ∷ key Codes.left_brace KeyFlags.shift b'{'
    ∷ key Codes.right_brace 0 b']'
    ∷ key Codes.right_brace KeyFlags.shift b'}'
    ∷ key Codes.back_slash 0 92
    ∷ key Codes.back_slash KeyFlags.shift b'|'
    ∷ key Codes.semicolon 0 b';'
    ∷ key Codes.semicolon KeyFlags.shift b':'
    ∷ key Codes.double_quote 0 39
    ∷ key Codes.double_quote KeyFlags.shift b'"'
    ∷ key Codes.comma 0 b','
    ∷ key Codes.comma KeyFlags.shift b'<'
    ∷ key Codes.dot 0 b'.'
    ∷ key Codes.dot KeyFlags.shift b'>'
    ∷ key Codes.slash 0 b'/'
    ∷ key Codes.slash KeyFlags.shift b'?'
    ∷ []

abbrev pub default_lines : List Line
default_lines = letter_lines ++ other_lines

unfoldable pub default_mapping : Outcome KeyMapping
unfolding create_mapping
default_mapping = create_mapping default_lines blank_mapping
