-- ===== src/Memory/Laws.antt =====
-- Reading back what was written, and what a write leaves alone.
use growlight.Prelude.{
  List, length, get_or, ℕ, zero, suc, ◌+◌, ◌-◌, ◌*◌, ◌/◌, ◌%◌, ◌^◌, ◌≤◌, ◌<◌, ◌≡◌, refl, sym, ap,
  ◌∙◌, ◌⊎◌, arith,
}
use growlight.Memory.{put_list, Bytes, blit, fill, digit, put_le, get_le}

-- An address outside a range.
abbrev pub Outside : ℕ → ℕ → ℕ → Type 0
Outside dst n x = (x < dst) ⊎ (dst + n ≤ x)

-- No byte outside a range has changed; the bytes of a range are zero; a range holds a copy.
abbrev pub Kept : ℕ → ℕ → Bytes → Bytes → Type 0
Kept dst n m m' = (x : ℕ) → Outside dst n x → m' x ≡ m x

abbrev pub Zeroed : ℕ → ℕ → Bytes → Type 0
Zeroed dst n m = (x : ℕ) → dst ≤ x → x < dst + n → m x ≡ 0

abbrev pub Copied : (dst src n : ℕ) → Bytes → Bytes → Type 0
Copied dst src n m m' = (i : ℕ) → i < n → m' (dst + i) ≡ m (src + i)

module _ (dst n : ℕ) (m : Bytes) (x : ℕ) where
  pub blit_out : (src : Bytes) → Outside dst n x → blit dst src n m x ≡ m x
  unfolding blit
  blit_out src h = ground arith

  pub blit_in : (src : Bytes) → dst ≤ x → x < dst + n → blit dst src n m x ≡ src (x - dst)
  unfolding blit
  blit_in src h k = ground arith

  pub fill_out : (v : ℕ) → Outside dst n x → fill dst v n m x ≡ m x
  unfolding fill
  fill_out v h = ground arith

  pub fill_in : (v : ℕ) → dst ≤ x → x < dst + n → fill dst v n m x ≡ v
  unfolding fill
  fill_in v h k = ground arith

  pub put_le_out : (v : ℕ) → Outside dst n x → put_le n dst v m x ≡ m x
  unfolding put_le
  put_le_out v h = ground arith

-- The value of the low `k` bytes.
abbrev pub low_bytes : ℕ → ℕ → ℕ
low_bytes zero v = 0
low_bytes (suc k) v = v % 256 + 256 * low_bytes k (v / 256)

-- Loads that see the same bytes agree.
pub get_le-ext :
    (k off : ℕ) (m m' : Bytes)
    → ((x : ℕ) → off ≤ x → x < off + k → m x ≡ m' x)
    → get_le k off m ≡ get_le k off m'
unfolding get_le
get_le-ext zero off m m' h = refl
get_le-ext (suc k) off m m' h = omega (
  arith,
  h off (omega arith) (omega arith),
  get_le-ext k (off + 1) m m' (λ x p q. h x (omega arith) (omega arith)),
)

get_le_digits :
    (k off v : ℕ) (m : Bytes)
    → ((i : ℕ) → i < k → m (off + i) ≡ digit v i)
    → get_le k off m ≡ low_bytes k v
unfolding get_le digit
get_le_digits zero off v m h = refl
get_le_digits (suc k) off v m h = omega (
  arith,
  first,
  get_le_digits k (off + 1) (v / 256) m
      (λ i p. shift (off + 1 + i) (off + suc i) i (omega arith) (h (suc i) (omega arith))),
)
  where
    first : m off ≡ v % 256
    first = ap m (omega arith) ∙ h 0 (omega arith)

    shift : (a b i : ℕ) → a ≡ b → m b ≡ digit v (suc i) → m a ≡ digit (v / 256) i
    shift a b i e q = ap m e ∙ q

-- A load at the address of a store gives the low bytes of what was stored.
pub get_le-put_le : (k off v : ℕ) (m : Bytes) → get_le k off (put_le k off v m) ≡ low_bytes k v
unfolding put_le
get_le-put_le k off v m = get_le_digits k off v (put_le k off v m) λ i p.
    blit_in off k m (off + i) (digit v) (omega arith) (omega arith) ∙ ap (digit v) (omega arith)

pub low_bytes_one : (v : ℕ) → low_bytes 1 v ≡ v % 256
low_bytes_one v = omega arith

pub low_bytes_four : (v : ℕ) → low_bytes 4 v ≡ v % 2 ^ 32
low_bytes_four v = omega arith

pub low_bytes_eight : (v : ℕ) → low_bytes 8 v ≡ v % 2 ^ 64
low_bytes_eight v = omega arith

-- Ranges that do not meet.
abbrev pub Apart : ℕ → ℕ → ℕ → ℕ → Type 0
Apart a j b k = (a + j ≤ b) ⊎ (b + k ≤ a)

module _ (k off : ℕ) (m : Bytes) where
  -- A load from outside a written range is not changed.
  pub get_le-blit_out :
      (dst n : ℕ) (src : Bytes)
      → Apart off k dst n
      → get_le k off (blit dst src n m) ≡ get_le k off m
  get_le-blit_out dst n src h =
      get_le-ext k off (blit dst src n m) m λ x p q. blit_out dst n m x src (ground arith)

  pub get_le-fill_out :
      (dst v n : ℕ) → Apart off k dst n → get_le k off (fill dst v n m) ≡ get_le k off m
  unfolding fill
  get_le-fill_out dst v n h = get_le-blit_out dst n (λ _. v) h

  pub get_le-put_le_out :
      (dst n v : ℕ) → Apart off k dst n → get_le k off (put_le n dst v m) ≡ get_le k off m
  unfolding put_le
  get_le-put_le_out dst n v h = get_le-blit_out dst n (digit v) h

-- A store over a store of the same bytes.
pub put_le_twice :
    (k dst v v' : ℕ) (m : Bytes) (x : ℕ) → put_le k dst v (put_le k dst v' m) x ≡ put_le k dst v m x
unfolding put_le blit
put_le_twice k dst v v' m x = ground arith

-- A load from a copy is a load from its source.
pub get_le-shift :
    (k src off : ℕ) (m : Bytes) → get_le k off (λ i. m (src + i)) ≡ get_le k (src + off) m
unfolding get_le
get_le-shift zero src off m = refl
get_le-shift (suc k) src off m =
    omega (arith, get_le-shift k src (off + 1) m, ap (λ a. get_le k a m) (re_add src off))
  where
    re_add : (a b : ℕ) → a + (b + 1) ≡ a + b + 1
    re_add a b = omega arith

pub get_le-blit_in :
    (k dst n off : ℕ) (src m : Bytes)
    → off + k ≤ n
    → get_le k (dst + off) (blit dst src n m) ≡ get_le k off src
get_le-blit_in k dst n off src m h =
    sym (get_le-shift k dst off (blit dst src n m))
    ∙ get_le-ext k off (λ i. blit dst src n m (dst + i)) src
        λ x p q. blit_in dst n m (dst + x) src (omega arith) (omega arith) ∙ ap src (omega arith)

pub put_le-ext :
    (k dst v : ℕ) (m m' : Bytes) (x : ℕ) → m x ≡ m' x → put_le k dst v m x ≡ put_le k dst v m' x
unfolding put_le blit
put_le-ext k dst v m m' x e = ground arith

pub put_list_in :
    (dst : ℕ) (bs : List ℕ) (m : Bytes) (i : ℕ)
    → i < length bs
    → put_list dst bs m (dst + i) ≡ get_or bs i 0
unfolding put_list
put_list_in dst bs m i h =
    blit_in dst (length bs) m (dst + i) (λ j. get_or bs j 0) (omega arith) (omega arith)
    ∙ ap (λ j. get_or bs j 0) {x = dst + i - dst} (omega arith)

pub put_list_out :
    (dst : ℕ) (bs : List ℕ) (m : Bytes) (x : ℕ)
    → Outside dst (length bs) x
    → put_list dst bs m x ≡ m x
unfolding put_list
put_list_out dst bs m x o = blit_out dst (length bs) m x (λ j. get_or bs j 0) o
