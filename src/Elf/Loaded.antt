-- ===== src/Elf/Loaded.antt =====
-- What a buffer holds after an image was loaded into it.
use himu_os.Prelude.{
  Bool, ℕ, zero, suc, ◌^◌, ◌≤◌, ◌<◌, ◌≡◌, ◌⊎◌, inl, inr, refl, subst, ◌∙◌, ap, true, false, ◌||◌,
  not, List, [], ◌∷◌, Option, none, some, ◌==◌, Bool-cases, arith,
}
use mathlib.Core.Option.{some-injective}
use himu_os.Elf.Image.{entries, Phdr, Image, validate, get_program_header}
use himu_os.Elf.Load.{is_loadable, is_accepted, copy_segment, load_segments, load_to_buffer}
use himu_os.Elf.Segment.{
  IsPhdr, IsInside, PassesAs, Covers, byte_of, accepted_sound, accepted_complete,
  copy_segment-covered, copy_segment-missed,
}

-- The fields of every header are words.
abbrev AllPhdrs : List Phdr → Type 0
AllPhdrs [] = Unit {0}
AllPhdrs (q ∷ qs) = IsPhdr q × AllPhdrs qs

module _ (m : Image) (base_virt base_size : ℕ) where
  -- No loadable segment of the list covers the offset.
  abbrev pub AllMiss : List Phdr → ℕ → Type 0
  AllMiss [] x = Unit {0}
  AllMiss (q ∷ qs) x = (is_loadable q ≡ true → ¬ Covers base_virt q x) × AllMiss qs x

  -- The last loadable segment of the list that covers the offset.
  abbrev pub IsLastOn : List Phdr → ℕ → Phdr → Type 0
  IsLastOn [] x ph = ⊥
  IsLastOn (q ∷ qs) x ph =
      ((q ≡ ph) × (is_loadable q ≡ true) × Covers base_virt q x × AllMiss qs x) ⊎ IsLastOn qs x ph

  abbrev pub AllPass : List Phdr → Type 0
  AllPass [] = Unit {0}
  AllPass (q ∷ qs) = (is_loadable q ≡ true → PassesAs m base_virt base_size q) × AllPass qs

  -- Some loadable segment is not inside.
  abbrev pub SomeOutside : List Phdr → Type 0
  SomeOutside [] = ⊥
  SomeOutside (q ∷ qs) =
      ((is_loadable q ≡ true) × (¬ IsInside m base_virt base_size q)) ⊎ SomeOutside qs

  -- Nothing behind the buffer is written.
  abbrev pub KeepsBehind : (ℕ → ℕ) → (ℕ → ℕ) → Type 0
  KeepsBehind buffer after = (x : ℕ) → base_size ≤ x → after x ≡ buffer x

  abbrev pub Loaded : List Phdr → (ℕ → ℕ) → Bool × (ℕ → ℕ) → Type 0
  Loaded phs buffer (false, after) = SomeOutside phs × KeepsBehind buffer after
  Loaded phs buffer (true, after) =
      AllPass phs
      × ((x : ℕ) → AllMiss phs x → after x ≡ buffer x)
      × ((x : ℕ) (ph : Phdr) → IsLastOn phs x ph → after x ≡ byte_of m base_virt ph x)
      × KeepsBehind buffer after

  skipped-Loaded :
      (ph : Phdr) (phs : List Phdr) (buffer : ℕ → ℕ) (r : Bool × (ℕ → ℕ))
      → is_loadable ph ≡ false
      → Loaded phs buffer r
      → Loaded (ph ∷ phs) buffer r
  skipped-Loaded ph phs buffer (false, after) other (rest, behind) = (inr rest, behind)
  skipped-Loaded ph phs buffer (true, after) other (pass, missed, last, behind) = (
    ((λ e. absurd (cc (e, other))), pass),
    λ x out. missed x out.1,
    λ x q on. elim on [ inl here ↦ absurd (cc (here.1, other)) | inr more ↦ last x q more ],
    behind,
  )

  copied-behind :
      (ph : Phdr) (buffer : ℕ → ℕ)
      → PassesAs m base_virt base_size ph
      → KeepsBehind buffer (copy_segment m base_virt base_size ph buffer)
  copied-behind ph buffer passes x far =
      copy_segment-missed m base_virt base_size ph buffer x passes.0
        (λ covers. omega (arith, covers.1, passes.1, passes.2, far))

  copied-Loaded :
      (ph : Phdr) (phs : List Phdr) (buffer : ℕ → ℕ) (r : Bool × (ℕ → ℕ))
      → is_loadable ph ≡ true
      → PassesAs m base_virt base_size ph
      → Loaded phs (copy_segment m base_virt base_size ph buffer) r
      → Loaded (ph ∷ phs) buffer r
  copied-Loaded ph phs buffer (false, after) loadable passes (rest, behind) =
      (inr rest, λ x far. behind x far ∙ copied-behind ph buffer passes x far)
  copied-Loaded ph phs buffer (true, after) loadable passes (pass, missed, last, behind) = (
    ((λ e. passes), pass),
    λ x out.
        missed x out.1
        ∙ copy_segment-missed m base_virt base_size ph buffer x passes.0 (out.0 loadable),
    λ x q on. elim on [
      | inl here ↦
          missed x here.3
          ∙ copy_segment-covered m base_virt base_size ph buffer x passes.0 here.2
          ∙ ap (λ p. byte_of m base_virt p x) here.0
      | inr more ↦ last x q more
    ],
    λ x far. behind x far ∙ copied-behind ph buffer passes x far,
  )

  module _ (size : m.size < 2 ^ 64) (base : base_virt < 2 ^ 64) where
    load_segments-Loaded :
        (phs : List Phdr) (buffer : ℕ → ℕ)
        → AllPhdrs phs
        → Loaded phs buffer (load_segments m base_virt base_size phs buffer)
    unfolding load_segments
    load_segments-Loaded [] buffer words =
        (tt, (λ x out. refl), (λ x ph on. absurd on), λ x far. refl)
    load_segments-Loaded (ph ∷ phs) buffer (word, words) = elim (Bool-cases (is_loadable ph)) [
      | inr e ↦ simp e (
          skipped-Loaded ph phs buffer (load_segments m base_virt base_size phs buffer) e
            (load_segments-Loaded phs buffer words))
      | inl e ↦ elim (Bool-cases (is_accepted m base_virt base_size ph)) [
        | inr f ↦
            simp (e, f)
              (
                inl (
                  refl,
                  λ inside.
                      cc (f, accepted_complete m base_virt base_size ph word size base inside),
                ),
                λ x far. refl,
              )
        | inl f ↦
            simp (e, f)
              (copied-Loaded ph phs buffer _ e
                (accepted_sound m base_virt base_size ph word size base f)
                (load_segments-Loaded phs (copy_segment m base_virt base_size ph buffer) words))
      ]
    ]

entries-AllPhdrs :
    (phdr : ℕ → Phdr) (i count : ℕ) → ((j : ℕ) → IsPhdr (phdr j)) → AllPhdrs (entries phdr i count)
unfolding entries
entries-AllPhdrs phdr i zero words = tt
entries-AllPhdrs phdr i (suc count) words = (words i, entries-AllPhdrs phdr (suc i) count words)

program_headers-AllPhdrs :
    (m : Image) (phs : List Phdr)
    → ((j : ℕ) → IsPhdr (m.phdr j))
    → get_program_header m ≡ some phs
    → AllPhdrs phs
unfolding get_program_header
program_headers-AllPhdrs m phs words =
    elim (Bool-cases (not (validate m.header m.size) || (m.header.e_phnum == 0))) [
      | inl e ↦ rw e (λ run. absurd (cc run))
      | inr e ↦ rw e (λ run.
          subst AllPhdrs (some-injective _ _ run)
            (entries-AllPhdrs m.phdr 0 m.header.e_phnum words))
    ]

module _ (m : Image) (base_virt base_size : ℕ) (buffer : ℕ → ℕ) where
  abbrev pub IsLoadOf : Bool × (ℕ → ℕ) → Type 0
  IsLoadOf (false, after) =
      ((get_program_header m ≡ none) × (after ≡ buffer))
      ⊎ ((phs : List Phdr) × (get_program_header m ≡ some phs)
          × SomeOutside m base_virt base_size phs
          × KeepsBehind m base_virt base_size buffer after)
  IsLoadOf (true, after) =
      (phs : List Phdr) × (get_program_header m ≡ some phs)
      × AllPass m base_virt base_size phs
      × ((x : ℕ) → AllMiss m base_virt base_size phs x → after x ≡ buffer x)
      × ((x : ℕ) (ph : Phdr)
          → IsLastOn m base_virt base_size phs x ph
          → after x ≡ byte_of m base_virt ph x)
      × KeepsBehind m base_virt base_size buffer after

  Loaded-IsLoadOf :
      (phs : List Phdr) (r : Bool × (ℕ → ℕ))
      → get_program_header m ≡ some phs
      → Loaded m base_virt base_size phs buffer r
      → IsLoadOf r
  Loaded-IsLoadOf phs (false, after) found (outside, behind) = inr (phs, found, outside, behind)
  Loaded-IsLoadOf phs (true, after) found (pass, missed, last, behind) =
      (phs, found, pass, missed, last, behind)

  -- Loading either succeeds or fails, and never writes behind the buffer. It fails only without
  -- program headers, with the buffer as it was, or where some loadable segment is not inside the
  -- window and the image; where it succeeds, every byte that a loadable segment covers is that of the
  -- last one that does, from the file or zero, and no other byte changes. Each segment loaded is in
  -- the window, and in the image unless it has more bytes of the file than the image.
  pub load_to_buffer-IsLoadOf :
      m.size < 2 ^ 64
      → base_virt < 2 ^ 64
      → ((i : ℕ) → IsPhdr (m.phdr i))
      → IsLoadOf (load_to_buffer m base_virt base_size buffer)
  unfolding load_to_buffer
  load_to_buffer-IsLoadOf size base words = by (get_program_header m) refl
    where
      by :
          (o : Option (List Phdr))
          → get_program_header m ≡ o
          → IsLoadOf (elim o [
            | none ↦ (false, buffer)
            | some phs ↦ load_segments m base_virt base_size phs buffer
          ])
      by none e = inl (e, refl)
      by (some phs) e = Loaded-IsLoadOf phs (load_segments m base_virt base_size phs buffer) e (
          load_segments-Loaded m base_virt base_size size base phs buffer
            (program_headers-AllPhdrs m phs words e))
