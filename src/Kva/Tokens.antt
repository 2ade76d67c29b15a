-- ===== src/Kva/Tokens.antt =====
-- The tokens of the fixmap: six bits of slot and 58 bits of generation.
use himu_os.Prelude.{
  ℕ, ◌+◌, ◌-◌, ◌*◌, ◌^◌, ◌<◌, ◌≡◌, ◌≢◌, false, ◌||◌, ◌==◌, leb, ltb, ok, mul64, arith,
  bit_or-shifted,
}
use himu_os.Kva.Fixmap.{encode_temp_map_token, decode_temp_map_handle}

pub encode_temp_map_token_sum :
    (slot generation : ℕ)
    → slot < 64
    → 0 < generation
    → generation < 2 ^ 58
    → encode_temp_map_token slot generation ≡ generation * 64 + slot
unfolding encode_temp_map_token
encode_temp_map_token_sum slot generation hs pos small =
    let word : mul64 generation 64 ≡ generation * 2 ^ 6 = omega arith in
    let slots : leb 64 slot ≡ false = ground arith in
    let range : ((generation == 0) || ltb (2 ^ 58 - 1) generation) ≡ false = ground arith in
    rw (slots, range, word) (bit_or-shifted 6 generation slot (omega arith))

-- Every slot and generation is recovered from its token, which is a word other than 0; and a word
-- that decodes is the token of what it decodes to.
pub decode_temp_map_handle-encode :
    (slot generation : ℕ)
    → slot < 64
    → 0 < generation
    → generation < 2 ^ 58
    → (decode_temp_map_handle (encode_temp_map_token slot generation) ≡ ok (slot, generation))
      × (encode_temp_map_token slot generation ≢ 0)
      × (encode_temp_map_token slot generation < 2 ^ 64)
      × ((token : ℕ)
          → decode_temp_map_handle token ≡ ok (slot, generation)
          → token ≡ encode_temp_map_token slot generation)
unfolding decode_temp_map_handle
decode_temp_map_handle-encode slot generation hs pos small =
    rw (encode_temp_map_token_sum slot generation hs pos small)
      (ground arith, omega arith, omega arith, λ token e. ground (arith, e))
