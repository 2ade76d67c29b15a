-- ===== src/Handle/Codes.antt =====
-- Handle words of kernel/ex/handle.c: eight bits of slot index plus one, 24 bits of generation.
use Prim.Native.Nat.{bit_or}
use himu_os.Prelude.{
  ℕ, ◌+◌, ◌-◌, ◌*◌, ◌/◌, ◌%◌, ◌^◌, ◌<◌, ◌≡◌, ◌≢◌, false, ◌||◌, Option, none, some, ◌==◌, leb,
  if◌then◌else◌, u32_mod, arith, bit_or-shifted,
}

abbrev pub max_handles : ℕ
max_handles = 32

abbrev pub invalid_handle : ℕ
invalid_handle = 0

abbrev pub generation_mod : ℕ
generation_mod = 2 ^ 24

unfoldable pub advance_generation : ℕ → ℕ
advance_generation generation =
    let next = (generation + 1) % u32_mod % generation_mod in if next == 0 then 1 else next

unfoldable pub encode_handle : ℕ → ℕ → ℕ
encode_handle slot generation =
    if leb max_handles slot || generation == 0
    then invalid_handle
    else bit_or (generation * 2 ^ 8 % u32_mod) (slot + 1)

-- The slot index and the generation of a handle that has both.
unfoldable pub decode_handle : ℕ → Option (ℕ × ℕ)
decode_handle handle =
    if handle == invalid_handle
    then none
    else let index = handle % 2 ^ 8 in
      let generation = handle / 2 ^ 8 % generation_mod in
      if index == 0 || generation == 0
      then none
      else if leb max_handles (index - 1)
      then none
      else some (index - 1, generation)

pub encode_sum :
    (slot generation : ℕ)
    → slot < max_handles
    → generation ≢ 0
    → generation < generation_mod
    → encode_handle slot generation ≡ generation * 256 + (slot + 1)
unfolding encode_handle
encode_sum slot generation hs hg small =
    let word : generation * 256 % u32_mod ≡ generation * 256 = omega arith in
    let test : (leb max_handles slot || generation == 0) ≡ false = ground arith in
    rw (test, word) (bit_or-shifted 8 generation (slot + 1) (omega arith))

-- Every slot and generation is recovered from its handle, which is never EX_HANDLE_INVALID.
pub decode_handle-encode_handle :
    (slot generation : ℕ)
    → slot < max_handles
    → generation ≢ 0
    → generation < generation_mod
    → (decode_handle (encode_handle slot generation) ≡ some (slot, generation))
      × (encode_handle slot generation ≢ invalid_handle)
unfolding decode_handle
decode_handle-encode_handle slot generation hs hg small =
    rw (encode_sum slot generation hs hg small) (ground arith, omega arith)

-- Conversely a word that decodes is the handle of what it decodes to.
encode_handle-decode_handle :
    (handle slot generation : ℕ)
    → handle < u32_mod
    → decode_handle handle ≡ some (slot, generation)
    → (slot < max_handles)
      × (generation ≢ 0)
      × (generation < generation_mod)
      × (encode_handle slot generation ≡ handle)
unfolding decode_handle
encode_handle-decode_handle handle slot generation word e =
    let hs : slot < max_handles = ground arith in
    let hg : generation ≢ 0 = ground arith in
    let small : generation < generation_mod = ground arith in
    (hs, hg, small, ground (arith, encode_sum slot generation hs hg small))

-- A generation that is advanced is a new one, and stays in range.
pub advance_generation_lem :
    (g : ℕ)
    → g < generation_mod
    → (advance_generation g ≢ g)
      × (advance_generation g ≢ 0)
      × (advance_generation g < generation_mod)
unfolding advance_generation
advance_generation_lem g h = ground arith
