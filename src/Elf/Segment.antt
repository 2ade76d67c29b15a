-- ===== src/Elf/Segment.antt =====
-- One segment of an image: what its checks show, and what its copy writes.
use himu_os.Prelude.{ℕ, ◌+◌, ◌-◌, ◌^◌, ◌≤◌, ◌<◌, ◌≡◌, ◌⊎◌, true, ltb, if◌then◌else◌, arith}
use himu_os.Elf.Image.{Phdr, Image}
use himu_os.Elf.Load.{is_accepted, copy_segment}

-- The fields are words.
abbrev pub IsPhdr : Phdr → Type 0
IsPhdr ph =
    (ph.p_offset < 2 ^ 64) × (ph.p_vaddr < 2 ^ 64) × (ph.p_filesz < 2 ^ 64) × (ph.p_memsz < 2 ^ 64)

-- The segment lies in the window of addresses, and its bytes of the file in the image.
abbrev pub IsInside : Image → ℕ → ℕ → Phdr → Type 0
IsInside m base_virt base_size ph =
    (ph.p_filesz ≤ ph.p_memsz)
    × (base_virt ≤ ph.p_vaddr)
    × (ph.p_vaddr + ph.p_memsz ≤ base_virt + base_size)
    × (ph.p_vaddr + ph.p_memsz < 2 ^ 64)
    × (ph.p_offset + ph.p_filesz ≤ m.size)

-- The same, but that more bytes of the file than the image has pass the check of the offset.
abbrev pub PassesAs : Image → ℕ → ℕ → Phdr → Type 0
PassesAs m base_virt base_size ph =
    (ph.p_filesz ≤ ph.p_memsz)
    × (base_virt ≤ ph.p_vaddr)
    × (ph.p_vaddr + ph.p_memsz ≤ base_virt + base_size)
    × (ph.p_vaddr + ph.p_memsz < 2 ^ 64)
    × ((ph.p_offset + ph.p_filesz ≤ m.size) ⊎ (m.size < ph.p_filesz))

abbrev pub Covers : ℕ → Phdr → ℕ → Type 0
Covers base_virt ph x = (ph.p_vaddr - base_virt ≤ x) × (x < ph.p_vaddr - base_virt + ph.p_memsz)

-- A byte of the file, or a zero behind those.
abbrev pub byte_of : Image → ℕ → Phdr → ℕ → ℕ
byte_of m base_virt ph x =
    let offset = ph.p_vaddr - base_virt in
    if ltb x (offset + ph.p_filesz) then m.bytes (ph.p_offset + (x - offset)) else 0

module _ (m : Image) (base_virt base_size : ℕ) where
  pub accepted_sound :
      (ph : Phdr)
      → IsPhdr ph
      → m.size < 2 ^ 64
      → base_virt < 2 ^ 64
      → is_accepted m base_virt base_size ph ≡ true
      → PassesAs m base_virt base_size ph
  unfolding is_accepted
  accepted_sound ph (ho, hv, hf, hm) size base e = ground (arith, e)

  pub accepted_complete :
      (ph : Phdr)
      → IsPhdr ph
      → m.size < 2 ^ 64
      → base_virt < 2 ^ 64
      → IsInside m base_virt base_size ph
      → is_accepted m base_virt base_size ph ≡ true
  unfolding is_accepted
  accepted_complete ph (ho, hv, hf, hm) size base inside = ground (arith, inside)

  pub copy_segment-covered :
      (ph : Phdr) (buffer : ℕ → ℕ) (x : ℕ)
      → ph.p_filesz ≤ ph.p_memsz
      → Covers base_virt ph x
      → copy_segment m base_virt base_size ph buffer x ≡ byte_of m base_virt ph x
  unfolding copy_segment
  copy_segment-covered ph buffer x sized covers = ground (arith, covers)

  pub copy_segment-missed :
      (ph : Phdr) (buffer : ℕ → ℕ) (x : ℕ)
      → ph.p_filesz ≤ ph.p_memsz
      → ¬ Covers base_virt ph x
      → copy_segment m base_virt base_size ph buffer x ≡ buffer x
  unfolding copy_segment
  copy_segment-missed ph buffer x sized missed = ground (arith, missed)

  -- In the window, a segment with more bytes of the file than the image has is accepted, and its copy
  -- reads behind the image: the difference of the sizes wraps.
  pub is_accepted-beyond :
      (ph : Phdr)
      → IsPhdr ph
      → ph.p_filesz ≤ ph.p_memsz
      → base_virt ≤ ph.p_vaddr
      → ph.p_vaddr + ph.p_memsz ≤ base_virt + base_size
      → ph.p_vaddr + ph.p_memsz < 2 ^ 64
      → m.size < ph.p_filesz
      → ph.p_offset ≤ m.size + (2 ^ 64 - ph.p_filesz)
      → (buffer : ℕ → ℕ) (x : ℕ) → ph.p_vaddr - base_virt + m.size ≤ x
      → x < ph.p_vaddr - base_virt + ph.p_filesz
      → (is_accepted m base_virt base_size ph ≡ true)
        × ((at : ℕ) × (m.size ≤ at) × (copy_segment m base_virt base_size ph buffer x ≡ m.bytes at))
  unfolding is_accepted copy_segment
  is_accepted-beyond ph (ho, hv, hf, hm) sized low high no_wrap big offset buffer x lo hi = (
    ground (arith, low),
    (ph.p_offset + (x - (ph.p_vaddr - base_virt)), omega arith, ground (arith, lo)),
  )
