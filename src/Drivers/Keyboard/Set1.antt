-- ===== src/Drivers/Keyboard/Set1.antt =====
-- `Set1Key` of kernel/src/drivers/keyboard.rs: the scan codes, the first byte lowest, and the
-- `encode` that the macro `EncodeKey` of macros/src/lib.rs derives.
use navi_os.Base.{ℕ}
use navi_os.Drivers.Keyboard.Codes
use navi_os.Drivers.Keyboard.Codes.{KeyCode, same_code}

pub data Set1Key : Type 0 where
  null f1 f2 f3 f4 f5 f6 f7 f8 f9 f10 f11 f12 print_scr esc key1 key2 key3 key4 : Set1Key
  key5 key6 key7 key8 key9 key0 minus equals backspace key_q key_w key_e key_r : Set1Key
  key_t key_y key_u key_i key_o key_p left_brace right_brace back_slash key_a : Set1Key
  key_s key_d key_f key_g key_h key_j key_k key_l semicolon double_quote return : Set1Key
  key_z key_x key_c key_v key_b key_n key_m back_quote comma dot slash tab : Set1Key
  caps_lock ctrl shift alt super space up down left right page_up page_down insert : Set1Key
  delete home end : Set1Key

-- The discriminants.
abbrev pub set_1 : Set1Key → ℕ
set_1 null = 0
set_1 f1 = 0x3B
set_1 f2 = 0x3C
set_1 f3 = 0x3D
set_1 f4 = 0x3E
set_1 f5 = 0x3F
set_1 f6 = 0x40
set_1 f7 = 0x41
set_1 f8 = 0x42
set_1 f9 = 0x43
set_1 f10 = 0x44
set_1 f11 = 0x57
set_1 f12 = 0x58
set_1 print_scr = 0x37E02AE0
set_1 esc = 0x1
set_1 key1 = 0x2
set_1 key2 = 0x3
set_1 key3 = 0x4
set_1 key4 = 0x5
set_1 key5 = 0x6
set_1 key6 = 0x7
set_1 key7 = 0x8
set_1 key8 = 0x9
set_1 key9 = 0xA
set_1 key0 = 0xB
set_1 minus = 0xC
set_1 equals = 0xD
set_1 backspace = 0xE
set_1 key_q = 0x10
set_1 key_w = 0x11
set_1 key_e = 0x12
set_1 key_r = 0x13
set_1 key_t = 0x14
set_1 key_y = 0x15
set_1 key_u = 0x16
set_1 key_i = 0x17
set_1 key_o = 0x18
set_1 key_p = 0x19
set_1 left_brace = 0x1A
set_1 right_brace = 0x1B
set_1 back_slash = 0x2B
set_1 key_a = 0x1E
set_1 key_s = 0x1F
set_1 key_d = 0x20
set_1 key_f = 0x21
set_1 key_g = 0x22
set_1 key_h = 0x23
set_1 key_j = 0x24
set_1 key_k = 0x25
set_1 key_l = 0x26
set_1 semicolon = 0x27
set_1 double_quote = 0x28
set_1 return = 0x1C
set_1 key_z = 0x2C
set_1 key_x = 0x2D
set_1 key_c = 0x2E
set_1 key_v = 0x2F
set_1 key_b = 0x30
set_1 key_n = 0x31
set_1 key_m = 0x32
set_1 back_quote = 0x29
set_1 comma = 0x33
set_1 dot = 0x34
set_1 slash = 0x35
set_1 tab = 0x0F
set_1 caps_lock = 0x3A
set_1 ctrl = 0x1D
set_1 shift = 0x2A
set_1 alt = 0x38
set_1 super = 0x5Be0
set_1 space = 0x39
set_1 up = 0x48e0
set_1 down = 0x50e0
set_1 left = 0x4Be0
set_1 right = 0x4De0
set_1 page_up = 0x49e0
set_1 page_down = 0x51e0
set_1 insert = 0x52e0
set_1 delete = 0x53e0
set_1 home = 0x47e0
set_1 end = 0x4Fe0

abbrev pub encode : Set1Key → KeyCode
encode null = Codes.null
encode f1 = Codes.f1
encode f2 = Codes.f2
encode f3 = Codes.f3
encode f4 = Codes.f4
encode f5 = Codes.f5
encode f6 = Codes.f6
encode f7 = Codes.f7
encode f8 = Codes.f8
encode f9 = Codes.f9
encode f10 = Codes.f10
encode f11 = Codes.f11
encode f12 = Codes.f12
encode print_scr = Codes.print_scr
encode esc = Codes.esc
encode key1 = Codes.key1
encode key2 = Codes.key2
encode key3 = Codes.key3
encode key4 = Codes.key4
encode key5 = Codes.key5
encode key6 = Codes.key6
encode key7 = Codes.key7
encode key8 = Codes.key8
encode key9 = Codes.key9
encode key0 = Codes.key0
encode minus = Codes.minus
encode equals = Codes.equals
encode backspace = Codes.backspace
encode key_q = Codes.key_q
encode key_w = Codes.key_w
encode key_e = Codes.key_e
encode key_r = Codes.key_r
encode key_t = Codes.key_t
encode key_y = Codes.key_y
encode key_u = Codes.key_u
encode key_i = Codes.key_i
encode key_o = Codes.key_o
encode key_p = Codes.key_p
encode left_brace = Codes.left_brace
encode right_brace = Codes.right_brace
encode back_slash = Codes.back_slash
encode key_a = Codes.key_a
encode key_s = Codes.key_s
encode key_d = Codes.key_d
encode key_f = Codes.key_f
encode key_g = Codes.key_g
encode key_h = Codes.key_h
encode key_j = Codes.key_j
encode key_k = Codes.key_k
encode key_l = Codes.key_l
encode semicolon = Codes.semicolon
encode double_quote = Codes.double_quote
encode return = Codes.return
encode key_z = Codes.key_z
encode key_x = Codes.key_x
encode key_c = Codes.key_c
encode key_v = Codes.key_v
encode key_b = Codes.key_b
encode key_n = Codes.key_n
encode key_m = Codes.key_m
encode back_quote = Codes.back_quote
encode comma = Codes.comma
encode dot = Codes.dot
encode slash = Codes.slash
encode tab = Codes.tab
encode caps_lock = Codes.caps_lock
encode ctrl = Codes.ctrl
encode shift = Codes.shift
encode alt = Codes.alt
encode super = Codes.super
encode space = Codes.space
encode up = Codes.up
encode down = Codes.down
encode left = Codes.left
encode right = Codes.right
encode page_up = Codes.page_up
encode page_down = Codes.page_down
encode insert = Codes.insert
encode delete = Codes.delete
encode home = Codes.home
encode end = Codes.end
