-- ===== src/Elf/Checked.antt =====
-- The header check against the bounds of the image.
use himu_os.Prelude.{
  ℕ, ◌+◌, ◌*◌, ◌^◌, ◌≤◌, ◌<◌, ◌≡◌, ◌⊎◌, ◌↔◌, inl, inr, refl, subst, true, ◌||◌, not, ◌==◌, ltb,
  add64, Bool-cases, arith,
}
use himu_os.Elf.Image.{
  Ehdr, ehdr_size, phdr_size, is_identified, is_executable, has_program_headers, validate,
}

-- The fields are words of their width.
abbrev pub IsEhdr : Ehdr → Type 0
IsEhdr h = (h.e_phoff < 2 ^ 64) × (h.e_phnum < 2 ^ 16) × (h.e_phentsize < 2 ^ 16)

-- The identification of a 64-bit ELF file of little-endian words, version 1.
abbrev IsIdentified : Ehdr → Type 0
IsIdentified h =
    (h.e_ident 0 ≡ 0x7F)
    × (h.e_ident 1 ≡ 69)
    × (h.e_ident 2 ≡ 76)
    × (h.e_ident 3 ≡ 70)
    × (h.e_ident 4 ≡ 2)
    × (h.e_ident 5 ≡ 1)
    × (h.e_ident 6 ≡ 1)

-- An executable or shared object of version 1 for machine 62, EM_X86_64.
abbrev IsExecutable : Ehdr → Type 0
IsExecutable h = (h.e_version ≡ 1) × (h.e_machine ≡ 62) × ((h.e_type ≡ 2) ⊎ (h.e_type ≡ 3))

-- A 64-bit x86 executable with its header and its program headers, of 56 bytes each, inside the image.
abbrev pub IsElf : Ehdr → ℕ → Type 0
IsElf h size =
    (64 ≤ size)
    × IsIdentified h
    × IsExecutable h
    × ((◌≡◌ {A = ℕ} h.e_phnum 0) ⊎ ((h.e_phentsize ≡ 56) × (h.e_phoff + h.e_phnum * 56 ≤ size)))

is_identified_iff : (h : Ehdr) → (is_identified h ≡ true) ↔ IsIdentified h
is_identified_iff h = (
  λ e. (
    ground (arith, e),
    ground (arith, e),
    ground (arith, e),
    ground (arith, e),
    ground (arith, e),
    ground (arith, e),
    ground (arith, e),
  ),
  λ v. ground (arith, v.0, v.1, v.2, v.3, v.4, v.5, v.6),
)

is_executable_iff : (h : Ehdr) → (is_executable h ≡ true) ↔ IsExecutable h
is_executable_iff h = (
  λ e. (ground (arith, e), ground (arith, e), ground (arith, e)),
  λ v. ground (arith, v.0, v.1, v.2),
)

no_wrap :
    (from bytes size : ℕ)
    → from < 2 ^ 64
    → bytes < 2 ^ 64
    → size < 2 ^ 64
    → not (ltb size (add64 from bytes) || ltb (add64 from bytes) from) ≡ true
    → from + bytes ≤ size
no_wrap from bytes size hf hb hs e = ground (arith, e)

has_program_headers_sound :
    (h : Ehdr) (size : ℕ)
    → IsEhdr h
    → size < 2 ^ 64
    → has_program_headers h size ≡ true
    → (h.e_phentsize ≡ phdr_size) × (h.e_phoff + h.e_phnum * phdr_size ≤ size)
unfolding has_program_headers
has_program_headers_sound h size (off, num, entry) small e =
    elim (Bool-cases (h.e_phentsize == phdr_size)) [
      | inr f ↦ absurd (ground (arith, e, f))
      | inl f ↦
          let width : h.e_phentsize ≡ phdr_size = ground arith in
          let end : not (
                ltb size (add64 h.e_phoff (h.e_phnum * phdr_size))
                || ltb (add64 h.e_phoff (h.e_phnum * phdr_size)) h.e_phoff)
              ≡ true =
            subst
              (λ w.
                not (
                  ltb size (add64 h.e_phoff (h.e_phnum * w))
                  || ltb (add64 h.e_phoff (h.e_phnum * w)) h.e_phoff)
                ≡ true)
              width (ground (arith, e)) in
          (width, no_wrap h.e_phoff (h.e_phnum * phdr_size) size off (omega arith) small end)
    ]

has_program_headers_complete :
    (h : Ehdr) (size : ℕ)
    → size < 2 ^ 64
    → h.e_phentsize ≡ phdr_size
    → h.e_phoff + h.e_phnum * phdr_size ≤ size
    → has_program_headers h size ≡ true
unfolding has_program_headers
has_program_headers_complete h size small entry inside = rw entry (ground (arith, inside))

-- With fields of the width of their words, the check accepts an image exactly where it has the 64
-- bytes of a header that identifies a 64-bit little-endian x86 executable or shared object, and either
-- no program header or its whole table of program headers of 56 bytes; no sum wraps.
pub validate-IsElf :
    (h : Ehdr) (size : ℕ)
    → IsEhdr h
    → size < 2 ^ 64
    → (validate h size ≡ true → IsElf h size) × (IsElf h size → validate h size ≡ true)
unfolding validate
validate-IsElf h size words small = elim (Bool-cases (ltb size ehdr_size)) [
  | inl e ↦ rw e (λ run. absurd (cc run), λ v. absurd (ground (arith, e, v.0)))
  | inr e ↦ rw e (elim (Bool-cases (is_identified h)) [
    | inr f ↦ rw f (λ run. absurd (cc run), λ v. absurd (cc ((is_identified_iff h).1 v.1, f)))
    | inl f ↦ rw f (elim (Bool-cases (is_executable h)) [
      | inr g ↦ rw g (λ run. absurd (cc run), λ v. absurd (cc ((is_executable_iff h).1 v.2, g)))
      | inl g ↦ rw g (elim (Bool-cases (ltb 0 h.e_phnum)) [
        | inl i ↦ rw i (
          λ run. (
            ground (arith, e),
            (is_identified_iff h).0 f,
            (is_executable_iff h).0 g,
            inr (has_program_headers_sound h size words small run),
          ),
          λ v. table i v.3,
        )
        | inr i ↦ rw i (
          λ run. (
            ground (arith, e),
            (is_identified_iff h).0 f,
            (is_executable_iff h).0 g,
            inl (ground (arith, i)),
          ),
          λ v. refl,
        )
      ])
    ])
  ])
]
  where
    table :
        ltb 0 h.e_phnum ≡ true
        → (◌≡◌ {A = ℕ} h.e_phnum 0)
          ⊎ ((h.e_phentsize ≡ phdr_size) × (h.e_phoff + h.e_phnum * phdr_size ≤ size))
        → has_program_headers h size ≡ true
    table i (inl empty) = absurd (ground (arith, i, empty))
    table i (inr (width, inside)) = has_program_headers_complete h size small width inside
