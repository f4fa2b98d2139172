-- ===== src/Memory.antt =====
-- Bytes by address: what memset, memcpy and the packed structures of gpt.h, msdos.c and apm.c do
-- to a device that is mapped MAP_SHARED. The host is little-endian, as those structures assume.
pub mod Laws
use growlight.Prelude.{
  ℕ, zero, suc, ◌+◌, ◌-◌, ◌*◌, ◌/◌, ◌%◌, Bool, true, ◌&&◌, List, ltb, leb, ◌==◌, if◌then◌else◌,
  get_or, length,
}

abbrev pub Bytes : Type 0
Bytes = ℕ → ℕ

abbrev pub within : ℕ → ℕ → ℕ → Bool
within dst n x = leb dst x && ltb x (dst + n)

-- memcpy: `src i` is the byte at `src + i`, read before any byte is written.
unfoldable pub blit : ℕ → Bytes → ℕ → Bytes → Bytes
blit dst src n m x = if within dst n x then src (x - dst) else m x

-- memset
unfoldable pub fill : ℕ → ℕ → ℕ → Bytes → Bytes
unfolding blit
fill dst v n = blit dst (λ _. v) n

-- The bytes of a list, copied to an address.
unfoldable pub put_list : ℕ → List ℕ → Bytes → Bytes
unfolding blit
put_list dst bs = blit dst (λ i. get_or bs i 0) (length bs)

-- The i-th byte of a little-endian number.
unfoldable pub digit : ℕ → ℕ → ℕ
digit v zero = v % 256
digit v (suc i) = digit (v / 256) i

-- A store of the low `k` bytes of a number, and a load of `k` bytes.
unfoldable pub put_le : ℕ → ℕ → ℕ → Bytes → Bytes
unfolding blit
put_le k dst v = blit dst (digit v) k

unfoldable pub get_le : ℕ → ℕ → Bytes → ℕ
get_le zero off m = 0
get_le (suc k) off m = m off + 256 * get_le k (off + 1) m

-- memcmp with zeroes.
unfoldable pub all_zero : ℕ → ℕ → Bytes → Bool
all_zero zero off m = true
all_zero (suc k) off m = (m off == 0) && all_zero k (off + 1) m
