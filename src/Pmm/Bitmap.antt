-- ===== src/Pmm/Bitmap.antt =====
-- Page states, two bits each, four to a byte: the helpers of kernel/ke/pmm/bitmap_sink.c and the
-- context of bitmap_sink.h.
use Prim.Native.Nat.{bit_and, bit_or}
use himu_os.Prelude.{
  ℕ, zero, suc, ◌+◌, ◌-◌, ◌*◌, ◌/◌, ◌%◌, ◌^◌, Bool, true, false, List, ◌==◌, if◌then◌else◌, get_or,
  set,
}

-- KE_PMM_PAGE_STATE is a C enum: the two bits read may also be 3, which names no state.
abbrev pub page_free : ℕ
page_free = 0

abbrev pub page_allocated : ℕ
page_allocated = 1

abbrev pub page_reserved : ℕ
page_reserved = 2

pub record Context : Type 0 where
  pub bitmap : List ℕ
  pub managed_base_phys : ℕ
  pub total_managed_pages : ℕ
  pub free_pages : ℕ
  pub allocated_pages : ℕ
  pub reserved_pages : ℕ

-- The two bits of page `k` of a byte: `(b >> (k << 1)) & 0x3`.
unfoldable pub page_bits : ℕ → ℕ → ℕ
page_bits b k = bit_and (b / 2 ^ (k * 2)) 3

-- `(uint8_t)((b & ~(0x3 << off)) | (s << off))`: of the complement, the low eight bits meet `b`.
unfoldable pub put_bits : ℕ → ℕ → ℕ → ℕ
put_bits b k s = bit_or (bit_and b (255 - 3 * 2 ^ (k * 2))) (s * 2 ^ (k * 2)) % 256

-- `pageIndex >> 2` and `pageIndex & 0x3`. A read past the buffer, which C leaves open, gives 0.
unfoldable pub get_state : Context → ℕ → ℕ
get_state ctx i = page_bits (get_or ctx.bitmap (i / 4) 0) (i % 4)

unfoldable pub set_state : Context → ℕ → ℕ → Context
set_state ctx i s = record ctx {
  bitmap = set ctx.bitmap (i / 4) (put_bits (get_or ctx.bitmap (i / 4) 0) (i % 4) s);
}

-- `for (i = 0; i < count; i++)`, from the page at hand on.
unfoldable pub set_range : Context → ℕ → ℕ → ℕ → Context
set_range ctx start zero s = ctx
set_range ctx start (suc n) s = set_range (set_state ctx start s) (start + 1) n s

unfoldable pub check_range : Context → ℕ → ℕ → ℕ → Bool
check_range ctx start zero s = true
check_range ctx start (suc n) s =
    if get_state ctx start == s then check_range ctx (start + 1) n s else false
