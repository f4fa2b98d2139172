-- ===== src/Readline/Numbers.antt =====
-- src/readline/readline.c: `wstrtoxu`, `wstrtoull` and `extract_partition_spec`. Each reads through a
-- buffer of BUFSIZ bytes, and its messages are left to the caller.
use growlight.Prelude.{
  ℕ, suc, ◌*◌, ◌%◌, ◌^◌, Bool, false, not, ◌||◌, Option, none, some, [], ◌∷◌, leb, ◌==◌,
  if◌then◌else◌, length,
}
use growlight.Prelude.Maybe.{◌>>=◌}
use growlight.Text.{Text, is_nil}
use growlight.Text.Hex.{strtoull_hex}
use growlight.Text.Strtoull.{strtoull}
use growlight.Popen.{bufsiz}
use growlight.Readline.{Locale}

-- buf[0] == '-'
abbrev pub is_minus : Text → Bool
is_minus [] = false
is_minus (c ∷ s) = c == 45

-- `%ls` into a buffer, which neither overflows nor starts with a minus sign.
unfoldable pub unsigned_buffer : Locale → Text → Option Text
unsigned_buffer l wstr =
    let buf = l.narrow wstr in if leb bufsiz (length buf) || is_minus buf then none else some buf

-- A hexadecimal number of an `unsigned`.
unfoldable pub wstrtoxu : Locale → Text → Option ℕ
unfolding strtoull_hex unsigned_buffer
wstrtoxu l wstr = do
  buf ← unsigned_buffer l wstr
  n ← strtoull_hex buf
  if leb (2 ^ 32) n.0 || not (is_nil n.1) then none else some n.0

-- The switch on the unit behind a number; the product of type uintmax_t wraps.
unfoldable pub scale : ℕ → ℕ → Option ℕ
scale u v =
    if u == b'E' || u == b'e'
    then some (v * 1000000000000000000 % 2 ^ 64)
    else if u == b'P' || u == b'p'
    then some (v * 1000000000000000 % 2 ^ 64)
    else if u == b'T' || u == b't'
    then some (v * 1000000000000 % 2 ^ 64)
    else if u == b'G' || u == b'g'
    then some (v * 1000000000 % 2 ^ 64)
    else if u == b'M' || u == b'm'
    then some (v * 1000000 % 2 ^ 64)
    else if u == b'K' || u == b'k'
    then some (v * 1000 % 2 ^ 64)
    else none

-- if(*e){ if(e[1]){ ... } switch(*e){ ... } }
unfoldable pub scaled : (value : ℕ) → (end : Text) → Option ℕ
unfolding scale
scaled v [] = some v
scaled v (u ∷ []) = scale u v
scaled v (u ∷ c ∷ e) = none

unfoldable pub wstrtoull : Locale → Text → Option ℕ
unfolding strtoull unsigned_buffer scaled
wstrtoull l wstr = do
  buf ← unsigned_buffer l wstr
  let r = strtoull buf
  if r.erange || (length r.end == length buf) then none else scaled r.value r.end

-- What the three pointers of `extract_partition_spec` are behind it: `none` for a null pointer.
pub record Spec : Type 0 where
  pub size : Option ℕ
  pub fsec : Option ℕ
  pub lsec : Option ℕ

-- wcschr(spec, L':'): what stands behind the colon.
unfoldable pub behind_colon : Text → Option Text
behind_colon [] = none
behind_colon (c ∷ s) = if c == b':' then some s else behind_colon s

-- The whole of `spec` is given to `wstrtoull` where it starts with a sector.
unfoldable pub extract_partition_spec : Locale → Text → Option Spec
unfolding wstrtoull behind_colon
extract_partition_spec l spec = elim (behind_colon spec) [
  | none ↦ wstrtoull l spec >>= (λ n. some (record { size = some n; fsec = none; lsec = none }))
  | some rest ↦
      if length spec == suc (length rest)
      then wstrtoull l rest >>= (λ n. some (record { size = none; fsec = none; lsec = some n }))
      else if is_nil rest
      then wstrtoull l spec >>= (λ n. some (record { size = none; fsec = some n; lsec = none }))
      else do
        first ← wstrtoull l spec
        last ← wstrtoull l rest
        some (record { size = none; fsec = some first; lsec = some last })
]
