-- ===== src/Drivers/Keyboard/Shapes.antt =====
-- Facts on all the scan codes.
use navi_os.Base.{ℕ, ◌≡◌, refl, ◌<◌, ◌+◌, ◌*◌, ◌⊎◌, inl, inr, false, arith}
use navi_os.Drivers.Keyboard.Codes
use navi_os.Drivers.Keyboard.Codes.{KeyCode, same_code}
use navi_os.Drivers.Keyboard.Set1.{
  Set1Key, set_1, encode, null, f1, f2, f3, f4, f5, f6, f7, f8, f9, f10, f11, f12, print_scr, esc,
  key1, key2, key3, key4, key5, key6, key7, key8, key9, key0, minus, equals, backspace, key_q,
  key_w, key_e, key_r, key_t, key_y, key_u, key_i, key_o, key_p, left_brace, right_brace,
  back_slash, key_a, key_s, key_d, key_f, key_g, key_h, key_j, key_k, key_l, semicolon,
  double_quote, return, key_z, key_x, key_c, key_v, key_b, key_n, key_m, back_quote, comma, dot,
  slash, tab, caps_lock, ctrl, shift, alt, super, space, up, down, left, right, page_up, page_down,
  insert, delete, home, end,
}

-- The shape of a scan code: one byte below 0x60, or one such byte behind the prefix 0xE0, but for
-- the four bytes of `PrintScr`.
pub data Shape (k : Set1Key) : Type 0 where
  single : set_1 k < 96 → Shape k
  prefixed : (c : ℕ) → c < 96 → set_1 k ≡ 224 + 256 * c → Shape k
  four : k ≡ print_scr → Shape k

pub shape : (k : Set1Key) → Shape k
shape null = single (omega arith)
shape f1 = single (omega arith)
shape f2 = single (omega arith)
shape f3 = single (omega arith)
shape f4 = single (omega arith)
shape f5 = single (omega arith)
shape f6 = single (omega arith)
shape f7 = single (omega arith)
shape f8 = single (omega arith)
shape f9 = single (omega arith)
shape f10 = single (omega arith)
shape f11 = single (omega arith)
shape f12 = single (omega arith)
shape print_scr = four refl
shape esc = single (omega arith)
shape key1 = single (omega arith)
shape key2 = single (omega arith)
shape key3 = single (omega arith)
shape key4 = single (omega arith)
shape key5 = single (omega arith)
shape key6 = single (omega arith)
shape key7 = single (omega arith)
shape key8 = single (omega arith)
shape key9 = single (omega arith)
shape key0 = single (omega arith)
shape minus = single (omega arith)
shape equals = single (omega arith)
shape backspace = single (omega arith)
shape key_q = single (omega arith)
shape key_w = single (omega arith)
shape key_e = single (omega arith)
shape key_r = single (omega arith)
shape key_t = single (omega arith)
shape key_y = single (omega arith)
shape key_u = single (omega arith)
shape key_i = single (omega arith)
shape key_o = single (omega arith)
shape key_p = single (omega arith)
shape left_brace = single (omega arith)
shape right_brace = single (omega arith)
shape back_slash = single (omega arith)
shape key_a = single (omega arith)
shape key_s = single (omega arith)
shape key_d = single (omega arith)
shape key_f = single (omega arith)
shape key_g = single (omega arith)
shape key_h = single (omega arith)
shape key_j = single (omega arith)
shape key_k = single (omega arith)
shape key_l = single (omega arith)
shape semicolon = single (omega arith)
shape double_quote = single (omega arith)
shape return = single (omega arith)
shape key_z = single (omega arith)
shape key_x = single (omega arith)
shape key_c = single (omega arith)
shape key_v = single (omega arith)
shape key_b = single (omega arith)
shape key_n = single (omega arith)
shape key_m = single (omega arith)
shape back_quote = single (omega arith)
shape comma = single (omega arith)
shape dot = single (omega arith)
shape slash = single (omega arith)
shape tab = single (omega arith)
shape caps_lock = single (omega arith)
shape ctrl = single (omega arith)
shape shift = single (omega arith)
shape alt = single (omega arith)
shape super = prefixed 0x5b (omega arith) refl
shape space = single (omega arith)
shape up = prefixed 0x48 (omega arith) refl
shape down = prefixed 0x50 (omega arith) refl
shape left = prefixed 0x4b (omega arith) refl
shape right = prefixed 0x4d (omega arith) refl
shape page_up = prefixed 0x49 (omega arith) refl
shape page_down = prefixed 0x51 (omega arith) refl
shape insert = prefixed 0x52 (omega arith) refl
shape delete = prefixed 0x53 (omega arith) refl
shape home = prefixed 0x47 (omega arith) refl
shape end = prefixed 0x4f (omega arith) refl

pub is_print_scr :
    (k : Set1Key) → (set_1 k ≡ 0x37E02AE0) ⊎ (same_code (encode k) Codes.print_scr ≡ false)
is_print_scr null = inr refl
is_print_scr f1 = inr refl
is_print_scr f2 = inr refl
is_print_scr f3 = inr refl
is_print_scr f4 = inr refl
is_print_scr f5 = inr refl
is_print_scr f6 = inr refl
is_print_scr f7 = inr refl
is_print_scr f8 = inr refl
is_print_scr f9 = inr refl
is_print_scr f10 = inr refl
is_print_scr f11 = inr refl
is_print_scr f12 = inr refl
is_print_scr print_scr = inl refl
is_print_scr esc = inr refl
is_print_scr key1 = inr refl
is_print_scr key2 = inr refl
is_print_scr key3 = inr refl
is_print_scr key4 = inr refl
is_print_scr key5 = inr refl
is_print_scr key6 = inr refl
is_print_scr key7 = inr refl
is_print_scr key8 = inr refl
is_print_scr key9 = inr refl
is_print_scr key0 = inr refl
is_print_scr minus = inr refl
is_print_scr equals = inr refl
is_print_scr backspace = inr refl
is_print_scr key_q = inr refl
is_print_scr key_w = inr refl
is_print_scr key_e = inr refl
is_print_scr key_r = inr refl
is_print_scr key_t = inr refl
is_print_scr key_y = inr refl
is_print_scr key_u = inr refl
is_print_scr key_i = inr refl
is_print_scr key_o = inr refl
is_print_scr key_p = inr refl
is_print_scr left_brace = inr refl
is_print_scr right_brace = inr refl
is_print_scr back_slash = inr refl
is_print_scr key_a = inr refl
is_print_scr key_s = inr refl
is_print_scr key_d = inr refl
is_print_scr key_f = inr refl
is_print_scr key_g = inr refl
is_print_scr key_h = inr refl
is_print_scr key_j = inr refl
is_print_scr key_k = inr refl
is_print_scr key_l = inr refl
is_print_scr semicolon = inr refl
is_print_scr double_quote = inr refl
is_print_scr return = inr refl
is_print_scr key_z = inr refl
is_print_scr key_x = inr refl
is_print_scr key_c = inr refl
is_print_scr key_v = inr refl
is_print_scr key_b = inr refl
is_print_scr key_n = inr refl
is_print_scr key_m = inr refl
is_print_scr back_quote = inr refl
is_print_scr comma = inr refl
is_print_scr dot = inr refl
is_print_scr slash = inr refl
is_print_scr tab = inr refl
is_print_scr caps_lock = inr refl
is_print_scr ctrl = inr refl
is_print_scr shift = inr refl
is_print_scr alt = inr refl
is_print_scr super = inr refl
is_print_scr space = inr refl
is_print_scr up = inr refl
is_print_scr down = inr refl
is_print_scr left = inr refl
is_print_scr right = inr refl
is_print_scr page_up = inr refl
is_print_scr page_down = inr refl
is_print_scr insert = inr refl
is_print_scr delete = inr refl
is_print_scr home = inr refl
is_print_scr end = inr refl
