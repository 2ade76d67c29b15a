-- ===== src/Elf/Load.antt =====
-- Loading an image: Elf64LoadToBuffer, and Elf64Load over a callback, of lib/elf/elf.c.
use himu_os.Prelude.{
  ℕ, ◌+◌, ◌-◌, ◌%◌, ◌^◌, Bool, true, false, ◌&&◌, ◌||◌, not, List, [], ◌∷◌, none, some, ◌==◌, leb,
  ltb, if◌then◌else◌, add64, sub64, u64_mod,
}
use Prim.Native.Nat.{bit_and}
use himu_os.Elf.Image.{Phdr, Image, get_program_header}

abbrev pub memcpy : (ℕ → ℕ) → ℕ → (ℕ → ℕ) → ℕ → ℕ → ℕ → ℕ
memcpy target to source from count =
    λ x. if leb to x && ltb x (to + count) then source (from + (x - to)) else target x

abbrev pub memset : (ℕ → ℕ) → ℕ → ℕ → ℕ → ℕ → ℕ
memset target to value count = λ x. if leb to x && ltb x (to + count) then value else target x

-- PT_LOAD
abbrev pub is_loadable : Phdr → Bool
is_loadable ph = ph.p_type == 1

module _ (m : Image) (base_virt base_size : ℕ) where
  -- The checks of a segment, in the order of the code.
  unfoldable pub is_accepted : Phdr → Bool
  is_accepted ph =
      not (ltb ph.p_memsz ph.p_filesz)
      && (not (ltb (sub64 m.size ph.p_filesz) ph.p_offset)
          && (not (ltb (u64_mod - 1 - ph.p_memsz) ph.p_vaddr)
              && not (
                  ltb ph.p_vaddr base_virt
                  || ltb base_size (sub64 (ph.p_vaddr + ph.p_memsz) base_virt))))

  -- The bytes of the file, and zeros behind them. A buffer is a function of the offset in it.
  unfoldable pub copy_segment : Phdr → (ℕ → ℕ) → ℕ → ℕ
  copy_segment ph buffer =
      let offset = ph.p_vaddr - base_virt in
      let copied =
        if ltb 0 ph.p_filesz
        then memcpy buffer offset m.bytes ph.p_offset ph.p_filesz
        else buffer in
      if ltb ph.p_filesz ph.p_memsz
      then memset copied (offset + ph.p_filesz) 0 (ph.p_memsz - ph.p_filesz)
      else copied

  -- Whether all were accepted, and the buffer as it is left.
  unfoldable pub load_segments : List Phdr → (ℕ → ℕ) → Bool × (ℕ → ℕ)
  load_segments [] buffer = (true, buffer)
  load_segments (ph ∷ phs) buffer =
      let skipped = load_segments phs buffer in
      let loaded = load_segments phs (copy_segment ph buffer) in
      if not (is_loadable ph)
      then skipped
      else if not (is_accepted ph)
      then (false, buffer)
      else loaded

  unfoldable pub load_to_buffer : (ℕ → ℕ) → Bool × (ℕ → ℕ)
  load_to_buffer buffer = elim (get_program_header m) [
    | none ↦ (false, buffer)
    | some phs ↦ load_segments phs buffer
  ]

-- PTE_WRITABLE and PTE_NO_EXECUTE
abbrev pub pte_writable : ℕ
pte_writable = 2

abbrev pub pte_no_execute : ℕ
pte_no_execute = 2 ^ 63

-- PF_X is bit 0 and PF_W bit 1.
unfoldable pub get_segment_perm : ℕ → ℕ
get_segment_perm flags =
    (if bit_and flags 2 == 0 then 0 else pte_writable)
    + (if bit_and flags 1 == 0 then pte_no_execute else 0)

-- The permissions in the `uint32_t` of the loop and in the `uint16_t` of the callback.
unfoldable pub passed_perm : ℕ → ℕ
passed_perm flags = get_segment_perm flags % 2 ^ 32 % 2 ^ 16

-- The callback on a state: the address, where the bytes begin in the image, their number, the size
-- in memory, the permissions and the alignment.
module _ {M : Type 0} (mapper : ℕ → ℕ → ℕ → ℕ → ℕ → ℕ → M → Bool × M) (m : Image)
    (min_base : ℕ) where
  abbrev pub is_skipped : Phdr → Bool
  is_skipped ph = not (is_loadable ph) || (not (min_base == 0) && ltb ph.p_vaddr min_base)

  abbrev pub is_outside : Phdr → Bool
  is_outside ph =
      let end = add64 ph.p_offset ph.p_filesz in
      ltb 0 ph.p_filesz && (ltb m.size end || ltb end ph.p_offset)

  unfoldable pub after_segment : (M → Bool × M) → Bool × M → Bool × M
  after_segment rest (false, s) = (false, s)
  after_segment rest (true, s) = rest s

  unfoldable pub map_segments : List Phdr → M → Bool × M
  map_segments [] s = (true, s)
  map_segments (ph ∷ phs) s =
      let skipped = map_segments phs s in
      let mapped =
        after_segment (λ s'. map_segments phs s')
          (mapper ph.p_vaddr ph.p_offset ph.p_filesz ph.p_memsz (passed_perm ph.p_flags) ph.p_align
            s) in
      if is_skipped ph then skipped else if is_outside ph then (false, s) else mapped

  unfoldable pub load : M → Bool × M
  load s = elim (get_program_header m) [ none ↦ (false, s) | some phs ↦ map_segments phs s ]
