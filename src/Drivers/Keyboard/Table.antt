-- ===== src/Drivers/Keyboard/Table.antt =====
-- A table of the scan codes and a list with a capacity, which do what the documentation of
-- `int_enum` and of `heapless` says.
use navi_os.Base.{
  ℕ, ◌≡◌, refl, Option, none, some, List, [], ◌∷◌, ◌++◌, ◌==◌, ltb, ==_iff, if◌then◌else◌, length,
  remove_at, arith, Bool-cases, inl, inr,
}
use navi_os.Drivers.Keyboard.Set1.{
  Set1Key, set_1, null, f1, f2, f3, f4, f5, f6, f7, f8, f9, f10, f11, f12, print_scr, esc, key1,
  key2, key3, key4, key5, key6, key7, key8, key9, key0, minus, equals, backspace, key_q, key_w,
  key_e, key_r, key_t, key_y, key_u, key_i, key_o, key_p, left_brace, right_brace, back_slash,
  key_a, key_s, key_d, key_f, key_g, key_h, key_j, key_k, key_l, semicolon, double_quote, return,
  key_z, key_x, key_c, key_v, key_b, key_n, key_m, back_quote, comma, dot, slash, tab, caps_lock,
  ctrl, shift, alt, super, space, up, down, left, right, page_up, page_down, insert, delete, home,
  end,
}
use navi_os.Drivers.Keyboard.{Crates, Documented, max_keys}

abbrev keys_of_set_1 : List Set1Key
keys_of_set_1 =
    null ∷ f1 ∷ f2 ∷ f3 ∷ f4 ∷ f5 ∷ f6 ∷ f7 ∷ f8 ∷ f9 ∷ f10 ∷ f11 ∷ f12 ∷ print_scr ∷ esc ∷ key1
    ∷ key2 ∷ key3 ∷ key4 ∷ key5 ∷ key6 ∷ key7 ∷ key8 ∷ key9 ∷ key0 ∷ minus ∷ equals ∷ backspace
    ∷ key_q ∷ key_w ∷ key_e ∷ key_r ∷ key_t ∷ key_y ∷ key_u ∷ key_i ∷ key_o ∷ key_p ∷ left_brace
    ∷ right_brace ∷ back_slash ∷ key_a ∷ key_s ∷ key_d ∷ key_f ∷ key_g ∷ key_h ∷ key_j ∷ key_k
    ∷ key_l ∷ semicolon ∷ double_quote ∷ return ∷ key_z ∷ key_x ∷ key_c ∷ key_v ∷ key_b ∷ key_n
    ∷ key_m ∷ back_quote ∷ comma ∷ dot ∷ slash ∷ tab ∷ caps_lock ∷ ctrl ∷ shift ∷ alt ∷ super
    ∷ space ∷ up ∷ down ∷ left ∷ right ∷ page_up ∷ page_down ∷ insert ∷ delete ∷ home ∷ end ∷ []

unfoldable pub search : List Set1Key → ℕ → Option Set1Key
search [] n = none
search (k ∷ ks) n = if set_1 k == n then some k else search ks n

abbrev pub crates : Crates
crates = record {
  try_from = search keys_of_set_1;
  push = λ keys key. if ltb (length keys) max_keys then some (keys ++ key ∷ []) else none;
  remove = λ keys i. remove_at i keys;
}

search_sound : (ks : List Set1Key) (n : ℕ) (k : Set1Key) → search ks n ≡ some k → n ≡ set_1 k
unfolding search
search_sound [] n k e = absurd (none-ne-some k e)
  where
    none-ne-some : (k : Set1Key) → none ≡ some k → ⊥
    none-ne-some k e = cc
search_sound (j ∷ ks) n k e = elim (Bool-cases (set_1 j == n)) [
  | inl here ↦ same (rw here at e) ((==_iff (set_1 j) n).0 here)
  | inr not_here ↦ search_sound ks n k (rw not_here at e)
]
  where
    same : some j ≡ some k → set_1 j ≡ n → n ≡ set_1 k
    same f g = cc

search_known : (k : Set1Key) → search keys_of_set_1 (set_1 k) ≡ some k
unfolding search
search_known null = refl
search_known f1 = refl
search_known f2 = refl
search_known f3 = refl
search_known f4 = refl
search_known f5 = refl
search_known f6 = refl
search_known f7 = refl
search_known f8 = refl
search_known f9 = refl
search_known f10 = refl
search_known f11 = refl
search_known f12 = refl
search_known print_scr = refl
search_known esc = refl
search_known key1 = refl
search_known key2 = refl
search_known key3 = refl
search_known key4 = refl
search_known key5 = refl
search_known key6 = refl
search_known key7 = refl
search_known key8 = refl
search_known key9 = refl
search_known key0 = refl
search_known minus = refl
search_known equals = refl
search_known backspace = refl
search_known key_q = refl
search_known key_w = refl
search_known key_e = refl
search_known key_r = refl
search_known key_t = refl
search_known key_y = refl
search_known key_u = refl
search_known key_i = refl
search_known key_o = refl
search_known key_p = refl
search_known left_brace = refl
search_known right_brace = refl
search_known back_slash = refl
search_known key_a = refl
search_known key_s = refl
search_known key_d = refl
search_known key_f = refl
search_known key_g = refl
search_known key_h = refl
search_known key_j = refl
search_known key_k = refl
search_known key_l = refl
search_known semicolon = refl
search_known double_quote = refl
search_known return = refl
search_known key_z = refl
search_known key_x = refl
search_known key_c = refl
search_known key_v = refl
search_known key_b = refl
search_known key_n = refl
search_known key_m = refl
search_known back_quote = refl
search_known comma = refl
search_known dot = refl
search_known slash = refl
search_known tab = refl
search_known caps_lock = refl
search_known ctrl = refl
search_known shift = refl
search_known alt = refl
search_known super = refl
search_known space = refl
search_known up = refl
search_known down = refl
search_known left = refl
search_known right = refl
search_known page_up = refl
search_known page_down = refl
search_known insert = refl
search_known delete = refl
search_known home = refl
search_known end = refl

pub crates-Documented : Documented crates
crates-Documented = record {
  known = search_known;
  sound = search_sound keys_of_set_1;
  room = λ keys key h. ground arith;
  full = λ keys key h. ground arith;
  removed = λ keys i h. refl;
}
