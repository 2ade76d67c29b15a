-- ===== src/Elf/Tests.antt =====
-- An image with one segment of ten bytes of the file and six zeros, and one that claims more bytes
-- than the image has.
use himu_os.Prelude.{ℕ, ◌≤◌, ◌≡◌, true, ◌==◌, if◌then◌else◌, arith}
use himu_os.Elf.Image.{Phdr, Image, validate}
use himu_os.Elf.Load.{is_accepted, copy_segment, load_to_buffer}
use himu_os.Elf.Checked.{IsElf, validate-IsElf}
use himu_os.Elf.Segment.{is_accepted-beyond}
use himu_os.Elf.Loaded.{IsLoadOf, load_to_buffer-IsLoadOf}

abbrev segment : Phdr
segment = record {
  p_type = 1;
  p_flags = 5;
  p_offset = 120;
  p_vaddr = 4096;
  p_filesz = 10;
  p_memsz = 16;
  p_align = 4096;
}

abbrev ident : ℕ → ℕ
ident i =
    if i == 0
    then 0x7F
    else if i == 1
    then 69
    else if i == 2
    then 76
    else if i == 3
    then 70
    else if i == 4
    then 2
    else 1

abbrev executable : Image
executable = record {
  size = 200;
  bytes = λ i. i;
  header = record {
    e_ident = ident;
    e_type = 2;
    e_machine = 62;
    e_version = 1;
    e_phoff = 64;
    e_phentsize = 56;
    e_phnum = 1;
  };
  phdr = λ i. segment;
}

validate-IsElf_example :
    (validate executable.header 200 ≡ true → IsElf executable.header 200)
    × (IsElf executable.header 200 → validate executable.header 200 ≡ true)
validate-IsElf_example =
    validate-IsElf executable.header 200 ((omega arith), (omega arith), (omega arith)) (omega arith)

load_to_buffer-IsLoadOf_example :
    IsLoadOf executable 4096 4096 (λ x. 7) (load_to_buffer executable 4096 4096 (λ x. 7))
load_to_buffer-IsLoadOf_example =
    load_to_buffer-IsLoadOf executable 4096 4096 (λ x. 7) (omega arith) (omega arith)
      (λ i. ((omega arith), (omega arith), (omega arith), (omega arith)))

abbrev oversized : Phdr
oversized = record segment { p_filesz = 300; p_memsz = 300 }

is_accepted-beyond_example :
    (is_accepted executable 4096 4096 oversized ≡ true)
    × ((at : ℕ) × (200 ≤ at) × (copy_segment executable 4096 4096 oversized (λ x. 7) 250 ≡ at))
is_accepted-beyond_example =
    is_accepted-beyond executable 4096 4096 oversized
      ((omega arith), (omega arith), (omega arith), (omega arith)) (omega arith) (omega arith)
      (omega arith) (omega arith) (omega arith) (omega arith) (λ x. 7) 250 (omega arith)
      (omega arith)
