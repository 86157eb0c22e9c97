-- ===== src/Arch/Gdt.antt =====
-- kernel/src/arch/x86_64/gdt.rs: the segment descriptors. The address of the task state segment is an
-- argument.
use navi_os.Base.{ℕ, ◌-◌, ◌/◌, ◌^◌, List, [], ◌∷◌, bit_and, bit_or}

pub record GdtEntry : Type 0 where
  pub limit0 : ℕ
  pub base0 : ℕ
  pub base1 : ℕ
  pub access : ℕ
  pub limit1_flags : ℕ
  pub base2 : ℕ

abbrev pub default : GdtEntry
default = record { limit0 = 0; base0 = 0; base1 = 0; access = 0; limit1_flags = 0; base2 = 0 }

-- `base` and `limit` are words of 32 bits, `access` and `flags` are bytes.
unfoldable pub new : ℕ → ℕ → ℕ → ℕ → GdtEntry
new base limit access flags = record {
  limit0 = bit_and limit 0xFFFF;
  base0 = bit_and base 0xFFFF;
  base1 = bit_and (base / 2 ^ 16) 0xFF;
  access = access;
  limit1_flags = bit_or (bit_and (limit / 2 ^ 16) 0x0F) (bit_and flags 0xF0);
  base2 = bit_and (base / 2 ^ 24) 0xFF;
}

unfoldable pub new_upper_64seg : ℕ → GdtEntry
new_upper_64seg base =
    let upper = base / 2 ^ 32 in
    record default { limit0 = bit_and upper 0xFFFF; base0 = bit_and (upper / 2 ^ 16) 0xFFFF }

abbrev pub access_write_read : ℕ
access_write_read = 2 ^ 1

abbrev pub access_executable : ℕ
access_executable = 2 ^ 3

abbrev pub non_system : ℕ
non_system = 2 ^ 4

abbrev pub access_vaild : ℕ
access_vaild = 2 ^ 7

abbrev pub access_type_tss : ℕ
access_type_tss = 9

abbrev pub flag_long : ℕ
flag_long = 2 ^ 5

abbrev pub flag_pagelimit : ℕ
flag_pagelimit = 2 ^ 7

-- `size_of` of `TaskStateSegment`.
abbrev pub tss_size : ℕ
tss_size = 104

unfoldable pub gdt : ℕ → List GdtEntry
unfolding new new_upper_64seg
gdt tss =
    let long = bit_or flag_pagelimit flag_long in
    let data_access = bit_or (bit_or access_vaild access_write_read) non_system in
    let code_access =
      bit_or (bit_or (bit_or access_vaild non_system) access_write_read) access_executable in
    default
    ∷ new 0 0xFFFFF code_access long
    ∷ new 0 0xFFFFF data_access long
    ∷ new (bit_and tss 0xFFFFFFFF) (tss_size - 1) (bit_or access_vaild access_type_tss) long
    ∷ new_upper_64seg tss
    ∷ []
