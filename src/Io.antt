-- ===== src/Io.antt =====
-- What the partition table code asks of the operating system and of zlib and iconv, as a record of
-- parameters, and the functions of the C program as actions on the device that they leave behind.
-- A store through a MAP_SHARED mapping is a store to the device; `access` stands for the page
-- fault of one outside the mapping.
pub mod Laws
use growlight.Prelude.{
  ◌<◌, ◌≡◌, true, false, ℕ, ◌+◌, ◌≤◌, Bool, Option, List, ◌∷◌, leb, if◌then◌else◌, length,
}
use growlight.Memory.{Bytes, blit}

-- Calls into code that is not part of the program. `fails n` says how the n-th system call ends,
-- so that a theorem for every `Os` covers every pattern of failures.
pub record Os : Type 0 where
  pub page_size : ℕ
  pub fails : ℕ → Bool
  -- the bytes that the n-th system call returns, if it is getrandom(2)
  pub random : ℕ → ℕ → ℕ
  -- crc32(0, m + off, len) of zlib
  pub crc32 : Bytes → ℕ → ℕ → ℕ
  -- it reads no other bytes
  pub crc32_local :
      (m m' : Bytes) (off len : ℕ)
      → ((x : ℕ) → off ≤ x → x < off + len → m x ≡ m' x)
      → crc32 m off len ≡ crc32 m' off len
  -- sha1 of `len` bytes at an address
  pub sha1 : Bytes → ℕ → ℕ → List ℕ
  pub cpu_to_le32 : ℕ → ℕ
  -- the bytes that iconv(3) puts in a buffer of that size, and whether it converted all
  pub utf16 : List ℕ → ℕ → List ℕ
  pub converts : List ℕ → ℕ → Bool
  pub utf16_fits : (name : List ℕ) (room : ℕ) → length (utf16 name room) ≤ room
  -- snprintf "%ls"
  pub narrow : List ℕ → List ℕ

-- A BLKPG message that the kernel took: the partition number with its first byte and length.
pub data PartEvent : Type 0 where
  added : ℕ → ℕ → ℕ → PartEvent
  deleted : ℕ → ℕ → ℕ → PartEvent

-- The last three members are those of the struct device at hand that the functions write.
pub record World : Type 0 where
  pub disk : Bytes
  pub calls : ℕ
  pub opened : ℕ
  pub closed : ℕ
  pub mapped : ℕ
  pub unmapped : ℕ
  pub kernel : List PartEvent
  pub biosboot : Bool
  pub biossha1 : List ℕ
  pub pname : Option (List ℕ)

-- `fail` is a function's error value (-1, NULL or MAP_FAILED); `abort` is a failed assertion, a
-- division by zero or an access outside a mapping, after which nothing runs.
pub data Outcome (A : Type 0) : Type 0 where
  ok : A → Outcome A
  fail : Outcome A
  abort : Outcome A

abbrev pub Io : Type 0 → Type 0
Io A = World → Outcome A × World

abbrev pub pure : {A : Type 0} → A → Io A
pure a w = (ok a, w)

abbrev pub failed : {A : Type 0} → Io A
failed w = (fail, w)

abbrev pub aborted : {A : Type 0} → Io A
aborted w = (abort, w)

infixl 5 ◌>>=◌ ◌>>◌
abbrev pub ◌>>=◌ : {A B : Type 0} → Io A → (A → Io B) → Io B
◌>>=◌ m f w =
    let (r, w') = m w in elim r [ ok a ↦ f a w' | fail ↦ (fail, w') | abort ↦ (abort, w') ]

abbrev pub ◌>>◌ : {A B : Type 0} → Io A → Io B → Io B
m >> k = m >>= λ _. k

-- `if(call){ cleanup; return -1; }`
abbrev pub on_fail : {A B : Type 0} → Io A → Io B → Io A
on_fail m cleanup w =
    let (r, w') = m w in
    elim r [ ok a ↦ (ok a, w') | fail ↦ (cleanup >> failed) w' | abort ↦ (abort, w') ]

-- A call whose error value is ignored.
abbrev pub attempt : Io (Unit {0}) → Io (Unit {0})
attempt m w =
    let (r, w') = m w in elim r [ ok a ↦ (ok tt, w') | fail ↦ (ok tt, w') | abort ↦ (abort, w') ]

-- `if(test) return -1;`
abbrev pub fail_if : Bool → Io (Unit {0})
fail_if true w = (fail, w)
fail_if false w = (ok tt, w)

-- assert
abbrev pub assert : Bool → Io (Unit {0})
assert true w = (ok tt, w)
assert false w = (abort, w)

-- An access to `len` bytes at an address, through a mapping that ends at `lim`.
abbrev pub access : ℕ → ℕ → ℕ → Io (Unit {0})
access lim off len = assert (leb (off + len) lim)

abbrev pub peek : Io Bytes
peek w = (ok w.disk, w)

abbrev pub poke : (Bytes → Bytes) → Io (Unit {0})
poke f w = (ok tt, record w { disk = f w.disk })

-- How a call ends, with the world after a failure and after a success.
abbrev ends : Bool → World → World → Outcome (Unit {0}) × World
ends true bad good = (fail, bad)
ends false bad good = (ok tt, good)

module _ (os : Os) where
  -- openat(2) of the device
  abbrev pub open_dev : Io (Unit {0})
  open_dev w =
      ends (os.fails w.calls) (record w { calls = w.calls + 1 })
        (record w { calls = w.calls + 1; opened = w.opened + 1 })

  -- close(2): the descriptor is gone also where an error is returned
  abbrev pub close_dev : Io (Unit {0})
  close_dev w =
      ends (os.fails w.calls) (record w { calls = w.calls + 1; closed = w.closed + 1 })
        (record w { calls = w.calls + 1; closed = w.closed + 1 })

  abbrev pub mmap : Io (Unit {0})
  mmap w =
      ends (os.fails w.calls) (record w { calls = w.calls + 1 })
        (record w { calls = w.calls + 1; mapped = w.mapped + 1 })

  abbrev pub munmap : Io (Unit {0})
  munmap w =
      ends (os.fails w.calls) (record w { calls = w.calls + 1 })
        (record w { calls = w.calls + 1; unmapped = w.unmapped + 1 })

  -- a system call with an error value and no effect on the device: msync, fsync, lseek
  abbrev pub syscall : Io (Unit {0})
  syscall w =
      ends (os.fails w.calls) (record w { calls = w.calls + 1 }) (record w { calls = w.calls + 1 })

  -- getrandom(2) of `n` bytes into a buffer on the device
  abbrev pub getrandom : ℕ → ℕ → Io (Unit {0})
  getrandom dst n w =
      ends (os.fails w.calls) (record w { calls = w.calls + 1 })
        (record w { calls = w.calls + 1; disk = blit dst (os.random w.calls) n w.disk })

-- `munmap(map, mapsize); close(fd);` on an error path, where their results are not read
abbrev pub munmap_close : Os → Io (Unit {0})
munmap_close os = do attempt (munmap os); attempt (close_dev os)

-- The second call is made if the first one fails.
abbrev pub or_else : {A : Type 0} → Io A → Io A → Io A
or_else m k w =
    let (r, w') = m w in elim r [ ok a ↦ (ok a, w') | fail ↦ k w' | abort ↦ (abort, w') ]

-- A member of the struct device, set.
abbrev pub assign : (World → World) → Io (Unit {0})
assign f w = (ok tt, f w)

abbrev pub members : Io World
members w = (ok w, w)

abbrev pub notify : PartEvent → Io (Unit {0})
notify e w = (ok tt, record w { kernel = e ∷ w.kernel })
