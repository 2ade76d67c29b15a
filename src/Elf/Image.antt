-- ===== src/Elf/Image.antt =====
-- Images and the checks of their header: Elf64Validate and Elf64GetProgramHeader of lib/elf/elf.c. The
-- structs that lie over an image are fields of its record.
use himu_os.Prelude.{
  ℕ, zero, suc, ◌*◌, Bool, true, false, ◌&&◌, ◌||◌, not, List, [], ◌∷◌, Option, none, some, ◌==◌,
  ltb, if◌then◌else◌, add64,
}

-- Elf64_Ehdr, in the fields that the code reads.
pub record Ehdr : Type 0 where
  pub e_ident : ℕ → ℕ
  pub e_type : ℕ
  pub e_machine : ℕ
  pub e_version : ℕ
  pub e_phoff : ℕ
  pub e_phentsize : ℕ
  pub e_phnum : ℕ

-- Elf64_Phdr
pub record Phdr : Type 0 where
  pub p_type : ℕ
  pub p_flags : ℕ
  pub p_offset : ℕ
  pub p_vaddr : ℕ
  pub p_filesz : ℕ
  pub p_memsz : ℕ
  pub p_align : ℕ

-- The bytes of an image, the header over their start and the program headers over those at e_phoff.
pub record Image : Type 0 where
  pub size : ℕ
  pub bytes : ℕ → ℕ
  pub header : Ehdr
  pub phdr : ℕ → Phdr

-- sizeof(Elf64_Ehdr) and sizeof(Elf64_Phdr)
abbrev pub ehdr_size : ℕ
ehdr_size = 64

abbrev pub phdr_size : ℕ
phdr_size = 56

abbrev pub is_identified : Ehdr → Bool
is_identified h =
    (h.e_ident 0 == 0x7F)
    && ((h.e_ident 1 == 69)
        && ((h.e_ident 2 == 76)
            && ((h.e_ident 3 == 70)
                && ((h.e_ident 4 == 2) && ((h.e_ident 5 == 1) && (h.e_ident 6 == 1))))))

abbrev pub is_executable : Ehdr → Bool
is_executable h =
    (h.e_version == 1) && ((h.e_machine == 62) && ((h.e_type == 2) || (h.e_type == 3)))

-- The table of program headers ends in the image, and its end does not wrap.
unfoldable pub has_program_headers : Ehdr → ℕ → Bool
has_program_headers h size =
    let end = add64 h.e_phoff (h.e_phnum * h.e_phentsize) in
    (h.e_phentsize == phdr_size) && not (ltb size end || ltb end h.e_phoff)

unfoldable pub validate : Ehdr → ℕ → Bool
validate h size =
    if ltb size ehdr_size
    then false
    else if not (is_identified h)
    then false
    else if not (is_executable h)
    then false
    else if ltb 0 h.e_phnum
    then has_program_headers h size
    else true

-- `count` entries of the table from `i` on.
unfoldable pub entries : (ℕ → Phdr) → ℕ → ℕ → List Phdr
entries phdr i zero = []
entries phdr i (suc count) = phdr i ∷ entries phdr (suc i) count

unfoldable pub get_program_header : Image → Option (List Phdr)
get_program_header m =
    if not (validate m.header m.size) || (m.header.e_phnum == 0)
    then none
    else some (entries m.phdr 0 m.header.e_phnum)
