-- ===== src/Drivers/Keyboard/Codes.antt =====
-- `KeyCode` of kernel/src/drivers/keyboard.rs, with its discriminants: the row in the high three
-- bits, the column in the low five.
use navi_os.Base.{ℕ, ◌+◌, ◌*◌, ◌≡◌, Bool, true, ◌==◌, ==_refl}

pub data KeyCode : Type 0 where
  null f1 f2 f3 f4 f5 f6 f7 f8 f9 f10 f11 f12 print_scr esc key1 key2 key3 key4 : KeyCode
  key5 key6 key7 key8 key9 key0 minus equals backspace key_q key_w key_e key_r : KeyCode
  key_t key_y key_u key_i key_o key_p left_brace right_brace back_slash key_a : KeyCode
  key_s key_d key_f key_g key_h key_j key_k key_l semicolon double_quote return : KeyCode
  key_z key_x key_c key_v key_b key_n key_m back_quote comma dot slash tab : KeyCode
  caps_lock ctrl shift alt super space up down left right page_up page_down insert : KeyCode
  delete home end last_key : KeyCode

-- The macro `row!`.
abbrev row : ℕ → ℕ
row n = n * 32

abbrev pub discriminant : KeyCode → ℕ
discriminant null = row 0
discriminant f1 = row 0 + 1
discriminant f2 = row 0 + 2
discriminant f3 = row 0 + 3
discriminant f4 = row 0 + 4
discriminant f5 = row 0 + 5
discriminant f6 = row 0 + 6
discriminant f7 = row 0 + 7
discriminant f8 = row 0 + 8
discriminant f9 = row 0 + 9
discriminant f10 = row 0 + 10
discriminant f11 = row 0 + 11
discriminant f12 = row 0 + 12
discriminant print_scr = row 0 + 13
discriminant esc = row 1
discriminant key1 = row 1 + 1
discriminant key2 = row 1 + 2
discriminant key3 = row 1 + 3
discriminant key4 = row 1 + 4
discriminant key5 = row 1 + 5
discriminant key6 = row 1 + 6
discriminant key7 = row 1 + 7
discriminant key8 = row 1 + 8
discriminant key9 = row 1 + 9
discriminant key0 = row 1 + 10
discriminant minus = row 1 + 11
discriminant equals = row 1 + 12
discriminant backspace = row 1 + 13
discriminant key_q = row 2
discriminant key_w = row 2 + 1
discriminant key_e = row 2 + 2
discriminant key_r = row 2 + 3
discriminant key_t = row 2 + 4
discriminant key_y = row 2 + 5
discriminant key_u = row 2 + 6
discriminant key_i = row 2 + 7
discriminant key_o = row 2 + 8
discriminant key_p = row 2 + 9
discriminant left_brace = row 2 + 10
discriminant right_brace = row 2 + 11
discriminant back_slash = row 2 + 12
discriminant key_a = row 3
discriminant key_s = row 3 + 1
discriminant key_d = row 3 + 2
discriminant key_f = row 3 + 3
discriminant key_g = row 3 + 4
discriminant key_h = row 3 + 5
discriminant key_j = row 3 + 6
discriminant key_k = row 3 + 7
discriminant key_l = row 3 + 8
discriminant semicolon = row 3 + 9
discriminant double_quote = row 3 + 10
discriminant return = row 3 + 11
discriminant key_z = row 4
discriminant key_x = row 4 + 1
discriminant key_c = row 4 + 2
discriminant key_v = row 4 + 3
discriminant key_b = row 4 + 4
discriminant key_n = row 4 + 5
discriminant key_m = row 4 + 6
discriminant back_quote = row 4 + 7
discriminant comma = row 4 + 8
discriminant dot = row 4 + 9
discriminant slash = row 4 + 10
discriminant tab = row 5
discriminant caps_lock = row 5 + 1
discriminant ctrl = row 5 + 2
discriminant shift = row 5 + 3
discriminant alt = row 5 + 4
discriminant super = row 5 + 5
discriminant space = row 5 + 6
discriminant up = row 5 + 7
discriminant down = row 5 + 8
discriminant left = row 5 + 9
discriminant right = row 5 + 10
discriminant page_up = row 6
discriminant page_down = row 6 + 1
discriminant insert = row 6 + 2
discriminant delete = row 6 + 3
discriminant home = row 6 + 4
discriminant end = row 6 + 5
discriminant last_key = row 6 + 6

-- The derived equality.
abbrev pub same_code : KeyCode → KeyCode → Bool
same_code a b = discriminant a == discriminant b

pub same_code_refl : (a : KeyCode) → same_code a a ≡ true
same_code_refl a = ==_refl (discriminant a)
