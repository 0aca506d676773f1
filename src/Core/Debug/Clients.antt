-- ===== src/Core/Debug/Clients.antt =====
-- core/gpudridebug.c: `amdGpuQueryClientInfo`, the clients of a card.
-- A file is its bytes. The program reads the first line by `fgets` and the others by `fscanf`, which does
-- not look at the ends of lines.
pub mod Printed
pub mod Words
use amdtop.Base.{
  ℕ, zero, suc, ◌+◌, ◌-◌, ◌*◌, Bool, true, false, Option, none, some, List, [], ◌∷◌, ℤ, pos, to_u32,
  eacces, einval, ◌==◌, if◌then◌else◌,
}
use amdtop.Base.Text.{Bytes, codes, contains, is_digit, is_space, skip_space, neg, signed}

-- `struct AmdGpuClientInfo`
pub record AmdGpuClientInfo : Type 0 where
  pub command : Bytes
  pub pid : ℕ
  pub dev : ℕ
  pub master : ℕ
  pub a : ℕ
  pub uid : ℕ
  pub magic : ℕ

-- At most `width` decimal digits behind a number that was read already.
unfoldable pub read_width : (width n : ℕ) → Bytes → ℕ × Bytes
read_width zero n s = (n, s)
read_width (suc k) n [] = (n, [])
read_width (suc k) n (c ∷ s) = elim (is_digit c) [
  | true ↦ read_width k (n * 10 + (c - b'0')) s
  | false ↦ (n, c ∷ s)
]

unfoldable pub digits_width : (width : ℕ) → Bytes → Option (ℕ × Bytes)
unfolding read_width
digits_width w [] = none
digits_width w (c ∷ s) = if is_digit c then some (read_width w 0 (c ∷ s)) else none

unfoldable pub sign_width : (width : ℕ) → Bytes → Option (ℤ × Bytes)
unfolding digits_width
sign_width w [] = none
sign_width w (c ∷ s) =
    if c == b'-'
    then signed neg (digits_width (w - 1) s)
    else (if c == b'+'
        then signed pos (digits_width (w - 1) s)
        else signed pos (digits_width w (c ∷ s)))

-- `%5d`, `%3d` and `%10u` into a `uint32_t`
unfoldable pub read_u32 : (width : ℕ) → Bytes → Option (ℤ × Bytes)
unfolding sign_width
read_u32 w s = sign_width w (skip_space s)

-- At most `width` bytes that are not blank.
unfoldable pub word_width : (width : ℕ) → Bytes → Bytes × Bytes
word_width zero s = ([], s)
word_width (suc k) [] = ([], [])
word_width (suc k) (c ∷ s) = elim (is_space c) [
  | true ↦ ([], c ∷ s)
  | false ↦ let (w, r) = word_width k s in (c ∷ w, r)
]

abbrev pub not_empty : Bytes × Bytes → Option (Bytes × Bytes)
not_empty ([], s) = none
not_empty (c ∷ w, s) = some (c ∷ w, s)

-- `%20s`
unfoldable pub read_command : Bytes → Option (Bytes × Bytes)
unfolding word_width
read_command s = not_empty (word_width 20 (skip_space s))

-- `%c`
abbrev pub read_char : Bytes → Option (ℕ × Bytes)
read_char [] = none
read_char (c ∷ s) = some (c, s)

infixl 5 ◌>>=◌
abbrev pub ◌>>=◌ : {A B : Type 0} → Option A → (A → Option B) → Option B
none >>= f = none
some a >>= f = f a

-- `fscanf(fp, "%20s %5d %3d   %c    %c %5d %10u\n", …) == 7`, with the bytes behind it.
unfoldable pub read_client : Bytes → Option (AmdGpuClientInfo × Bytes)
read_client s = do
  (command, s) ← read_command s
  (pid, s) ← read_u32 5 s
  (dev, s) ← read_u32 3 s
  (master, s) ← read_char (skip_space s)
  (a, s) ← read_char (skip_space s)
  (uid, s) ← read_u32 5 s
  (magic, s) ← read_u32 10 s
  some (
    record {
      command = command;
      pid = to_u32 pid;
      dev = to_u32 dev;
      master = master;
      a = a;
      uid = to_u32 uid;
      magic = to_u32 magic;
    },
    skip_space s,
  )

-- The loop for so many clients more: it ends with `failed`, or at the end of the file, which is noticed
-- when the blank at the end of the format has reached it.
unfoldable pub client_loop : ℕ → Bytes → List AmdGpuClientInfo
client_loop zero s = []
client_loop (suc k) s = elim (read_client s) as (λ o. List AmdGpuClientInfo) [
  | none ↦ []
  | some r ↦
      r.0 ∷ elim r.1 as (λ s. List AmdGpuClientInfo) [ [] ↦ [] | c ∷ s ↦ client_loop k (c ∷ s) ]
]

-- What is left behind: the result, the elements of the array that are counted, `none` where the count is
-- not set, and the descriptors that stay open.
pub record ClientQuery : Type 0 where
  pub ret : ℤ
  pub clients : Option (List AmdGpuClientInfo)
  pub open_files : ℕ

-- `amdGpuQueryClientInfo` for an array of `max` elements; the file is its first line and the bytes behind.
unfoldable pub amd_gpu_query_client_info : (max : ℕ) → Option (Bytes × Bytes) → ClientQuery
amd_gpu_query_client_info max none = record { ret = eacces; clients = none; open_files = 0 }
amd_gpu_query_client_info max (some (first, rest)) =
    if contains (codes "master") first
    then record { ret = pos 0; clients = some (client_loop max rest); open_files = 0 }
    else record { ret = einval; clients = none; open_files = 1 }
