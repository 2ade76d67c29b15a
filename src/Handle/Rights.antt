-- ===== src/Handle/Rights.antt =====
-- The guards of a resolve without the code's tests: the rights bit by bit, and a live header.
use himu_os.Prelude.{
  ℕ, zero, suc, ◌/◌, ◌%◌, ◌≤◌, ◌≡◌, ◌≢◌, ◌↔◌, refl, ap, inl, inr, true, ◌==◌, Bool-cases,
  bit_and-digit, ◌+◌, arith,
}
use Prim.Native.Nat.{bit_and}
use himu_os.Handle.Objects.{
  ObjectType, process_type, thread_type, console_type, invalid_type, type_code, is_valid_type,
  Header, is_live,
}
use himu_os.Handle.Table.{has_rights}

-- Bit `k` of a word.
abbrev pub bit_at : ℕ → ℕ → ℕ
bit_at zero word = word % 2
bit_at (suc k) word = bit_at k (word / 2)

-- Every right desired is among the rights.
abbrev pub HasBits : ℕ → ℕ → Type 0
HasBits rights desired = (k : ℕ) → bit_at k desired ≡ 1 → bit_at k rights ≡ 1

bits_of_meet : (k a b : ℕ) → bit_and a b ≡ b → bit_at k b ≡ 1 → bit_at k a ≡ 1
bits_of_meet zero a b e bit = omega (arith, bit_and-digit a b, e, bit)
bits_of_meet (suc k) a b e bit =
    bits_of_meet k (a / 2) (b / 2) (omega (arith, bit_and-digit a b, e)) bit

meet_of_bits : (n a b : ℕ) → a ≤ n → b ≤ n → HasBits a b → bit_and a b ≡ b
meet_of_bits zero zero zero small less all = refl
meet_of_bits zero (suc a) b small less all = absurd (omega arith)
meet_of_bits zero zero (suc b) small less all = absurd (omega arith)
meet_of_bits (suc n) a b small less all =
    let halves : bit_and (a / 2) (b / 2) ≡ b / 2 =
      meet_of_bits n (a / 2) (b / 2) (omega arith) (omega arith) (λ k. all (suc k)) in
    elim (Bool-cases (b % 2 == 1)) [
      | inl odd ↦
          let one : b % 2 ≡ 1 = ground arith in
          let both : a % 2 ≡ 1 = all 0 one in omega (arith, bit_and-digit a b, halves, one, both)
      | inr even ↦
          let none : b % 2 ≡ 0 = ground arith in omega (arith, bit_and-digit a b, halves, none)
    ]

pub has_rights_iff :
    (rights desired : ℕ) → (has_rights rights desired ≡ true) ↔ HasBits rights desired
has_rights_iff rights desired = (
  λ e k. bits_of_meet k rights desired (ground (arith, e)),
  λ all.
      let meet : bit_and rights desired ≡ desired =
        meet_of_bits (rights + desired) rights desired (omega arith) (omega arith) all in
      ground (arith, meet),
)

-- A header that may be retained for a type.
abbrev pub IsLive : Header → ObjectType → Type 0
IsLive h expected = (h.type ≡ expected) × (h.reference_count ≢ 0)

same_type : (a b : ObjectType) → type_code a ≡ type_code b → a ≡ b
same_type invalid_type invalid_type e = refl
same_type process_type process_type e = refl
same_type thread_type thread_type e = refl
same_type console_type console_type e = refl
same_type a b e = absurd (omega (arith, e))

pub is_valid_type_iff :
    (expected : ObjectType) → (is_valid_type expected ≡ true) ↔ (expected ≢ invalid_type)
is_valid_type_iff invalid_type = (λ e. absurd (cc e), λ ne. absurd (ne refl))
is_valid_type_iff process_type = (λ e. λ q. absurd (cc q), λ ne. refl)
is_valid_type_iff thread_type = (λ e. λ q. absurd (cc q), λ ne. refl)
is_valid_type_iff console_type = (λ e. λ q. absurd (cc q), λ ne. refl)

pub is_live_iff :
    (h : Header) (expected : ObjectType)
    → is_valid_type expected ≡ true
    → (is_live h expected ≡ true) ↔ IsLive h expected
is_live_iff h expected valid = (
  λ e. (same_type h.type expected (ground (arith, e)), ground (arith, e)),
  λ (typed, counted).
      let code : type_code h.type ≡ type_code expected = ap type_code typed in
      ground (arith, valid, code, counted),
)
