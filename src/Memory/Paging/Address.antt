-- ===== src/Memory/Paging/Address.antt =====
-- The indices of an address, and where the tables lead it.
use navi_os.Base.{ℕ, ◌+◌, ◌/◌, ◌%◌, ◌^◌, ◌<◌, ◌≡◌, ◌∙◌, arith, Option, some, List, [], ◌∷◌}
use navi_os.Base.Bits.{bit_and-ones}
use navi_os.Memory.{PhysAddr, VirtAddr, page_size, translate}
use navi_os.Memory.Address.{translate_lem}
use navi_os.Memory.Paging.{Machine}
use navi_os.Memory.Paging.Tree.{bind, walk}

abbrev pub path_of : VirtAddr → List ℕ
path_of addr = let (offset, l1, l2, l3, l4) = translate addr in l4 ∷ l3 ∷ l2 ∷ l1 ∷ []

-- The physical address of a virtual one.
abbrev pub resolve : Machine → PhysAddr → VirtAddr → Option PhysAddr
resolve m root addr = bind (walk m root (path_of addr)) (λ frame. some (frame + (translate addr).0))

pub offset_lem : (addr : ℕ) → (translate addr).0 ≡ addr % page_size
unfolding translate
offset_lem addr = bit_and-ones 12 addr

-- The page of an address: bits 12 to 47. The bits above them are not read.
abbrev pub page_number : VirtAddr → ℕ
page_number addr = addr % 2 ^ 48 / page_size

-- The addresses of one page have the same indices, and those of two pages do not.
pub path_of-same : (a b : ℕ) → page_number a ≡ page_number b → path_of a ≡ path_of b
unfolding translate
path_of-same a b e =
    let low1 = bit_and-ones 9 (a / 2 ^ 12) in
    let low2 = bit_and-ones 9 (a / 2 ^ 21) in
    let low3 = bit_and-ones 9 (a / 2 ^ 30) in
    let low4 = bit_and-ones 9 (a / 2 ^ 39) in
    let low1' = bit_and-ones 9 (b / 2 ^ 12) in
    let low2' = bit_and-ones 9 (b / 2 ^ 21) in
    let low3' = bit_and-ones 9 (b / 2 ^ 30) in
    let low4' = bit_and-ones 9 (b / 2 ^ 39) in
    let l1 : a / 2 ^ 12 % 2 ^ 9 ≡ b / 2 ^ 12 % 2 ^ 9 = omega arith in
    let l2 : a / 2 ^ 21 % 2 ^ 9 ≡ b / 2 ^ 21 % 2 ^ 9 = omega arith in
    let l3 : a / 2 ^ 30 % 2 ^ 9 ≡ b / 2 ^ 30 % 2 ^ 9 = omega arith in
    let l4 : a / 2 ^ 39 % 2 ^ 9 ≡ b / 2 ^ 39 % 2 ^ 9 = omega arith in
    cc (low1, low2, low3, low4, low1', low2', low3', low4')

path_of-page_low :
    (a b : ℕ) → a < 2 ^ 48 → b < 2 ^ 48 → path_of a ≡ path_of b → a / page_size ≡ b / page_size
path_of-page_low a b ha hb e =
    let same1 : (translate a).1 ≡ (translate b).1 = cc in
    let same2 : (translate a).2 ≡ (translate b).2 = cc in
    let same3 : (translate a).3 ≡ (translate b).3 = cc in
    let same4 : (translate a).4 ≡ (translate b).4 = cc in
    let left = translate_lem a ha in let right = translate_lem b hb in omega arith

pub path_of-page : (a b : ℕ) → path_of a ≡ path_of b → page_number a ≡ page_number b
path_of-page a b e =
    path_of-page_low (a % 2 ^ 48) (b % 2 ^ 48) (omega arith) (omega arith)
      (path_of-same (a % 2 ^ 48) a (omega arith) ∙ e ∙ path_of-same b (b % 2 ^ 48) (omega arith))
