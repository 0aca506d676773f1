-- ===== src/Core/Debug/Fences.antt =====
-- core/gpudridebug.c: `amdGpuQueryFenceInfo`, what the fence file says of a ring.
-- A file is the lines that `fgets` gives; the last of them ends with its newline, so that the end of the
-- file is noticed by the call behind it, which leaves the buffer as it is.
use amdtop.Base.{
  ℕ, zero, suc, ◌+◌, Bool, Option, none, some, List, [], ◌∷◌, ◌++◌, ℤ, pos, to_u32, if◌then◌else◌,
}
use amdtop.Base.Text.{
  Bytes, codes, starts, contains, Item, byte, blank, int, hex, text, skip, Value, num, str, lits,
  sscanf,
}

-- `struct AmdGpuFenceInfo`
pub record AmdGpuFenceInfo : Type 0 where
  pub ringid : ℕ
  pub signaled : ℕ
  pub emitted : ℕ
  pub trailing_fence : ℕ
  pub emitted_trial : ℕ
  pub preempted : ℕ
  pub reset : ℕ
  pub both : ℕ

abbrev pub no_fences : AmdGpuFenceInfo
no_fences = record {
  ringid = 0;
  signaled = 0;
  emitted = 0;
  trailing_fence = 0;
  emitted_trial = 0;
  preempted = 0;
  reset = 0;
  both = 0;
}

-- A line inside a section, with its number if it has one.
pub data Line : Type 0 where
  emitted_line trailing_line signaled_line preempted_line reset_line both_line : Option ℕ → Line
  other_line : Line

-- `sscanf(buff, "%*s … 0x%08x", &n) == 1`, behind so many words.
abbrev pub number_of : List Value → Option ℕ
number_of (num n ∷ []) = some (to_u32 n)
number_of _ = none

abbrev pub hex_behind : List Item
hex_behind = blank ∷ byte b'0' ∷ byte b'x' ∷ hex ∷ []

abbrev pub behind_two : List Item
behind_two = skip ∷ blank ∷ skip ∷ hex_behind

abbrev pub behind_three : List Item
behind_three = skip ∷ blank ∷ behind_two

abbrev pub behind_four : List Item
behind_four = skip ∷ blank ∷ behind_three

-- The tests by `strstr`, in their order.
unfoldable pub read_line : Bytes → Line
read_line s =
    if contains (codes "emitted") s
    then emitted_line (number_of (sscanf behind_two s))
    else (if contains (codes "trailing") s
        then trailing_line (number_of (sscanf behind_four s))
        else (if contains (codes "signaled") s
            then signaled_line (number_of (sscanf behind_three s))
            else (if contains (codes "preempted") s
                then preempted_line (number_of (sscanf behind_two s))
                else (if contains (codes "reset") s
                    then reset_line (number_of (sscanf behind_two s))
                    else (if contains (codes "both") s
                        then both_line (number_of (sscanf behind_two s))
                        else other_line)))))

-- A value that is set only where a number was read.
abbrev pub set_to : ℕ → Option ℕ → ℕ
set_to old none = old
set_to old (some n) = n

-- Of the lines with `emitted` the first and the second are told apart, by `emitted_index`.
abbrev pub set_emitted : ℕ → Option ℕ → AmdGpuFenceInfo → AmdGpuFenceInfo
set_emitted zero n i = record i { emitted = set_to i.emitted n }
set_emitted (suc zero) n i = record i { emitted_trial = set_to i.emitted_trial n }
set_emitted (suc (suc k)) n i = i

-- What a line changes: `emitted_index` and the result.
unfoldable pub note_line : Line → ℕ → AmdGpuFenceInfo → ℕ × AmdGpuFenceInfo
note_line (emitted_line n) k i = (k + 1, set_emitted k n i)
note_line (trailing_line n) k i = (k, record i { trailing_fence = set_to i.trailing_fence n })
note_line (signaled_line n) k i = (k, record i { signaled = set_to i.signaled n })
note_line (preempted_line n) k i = (k, record i { preempted = set_to i.preempted n })
note_line (reset_line n) k i = (k, record i { reset = set_to i.reset n })
note_line (both_line n) k i = (k, record i { both = set_to i.both n })
note_line other_line k i = (k, i)

-- "--- ring %d (%s) ---"; the last four bytes of the format make no conversion.
abbrev pub header_format : List Item
header_format =
    byte b'-'
    ∷ byte b'-'
    ∷ byte b'-'
    ∷ blank
    ∷ (lits "ring" ++ (blank ∷ int ∷ blank ∷ byte b'(' ∷ text ∷ byte b')' ∷ []))

-- The line of a ring, with its number and the rest of it from its name on.
abbrev pub header_of : List Value → Option (ℤ × Bytes)
header_of (num n ∷ str s ∷ []) = some (n, s)
header_of _ = none

unfoldable pub header : Bytes → Option (ℤ × Bytes)
header s = header_of (sscanf header_format s)

abbrev pub is_dashed : Bytes → Bool
is_dashed s = starts (codes "---") s

-- The outer loop at a line: the place it goes on at, `some 0` for the start of the inner loop.
unfoldable pub at_header :
    (shortname : Bytes) → Option (ℤ × Bytes) → AmdGpuFenceInfo → Option ℕ × AmdGpuFenceInfo
at_header name none i = (none, i)
at_header name (some (n, s)) i =
    ((if starts name s then some 0 else none), record i { ringid = to_u32 n })

-- The two loops over the lines left: `none` is the outer one, `some k` the inner one with `emitted_index`
-- k, whose buffer is `buff`.
unfoldable pub fence_loop :
    (shortname : Bytes) → Option ℕ → (buff : Bytes) → List Bytes → AmdGpuFenceInfo → AmdGpuFenceInfo
unfolding read_line note_line header at_header
fence_loop name none buff [] i = i
fence_loop name none buff (l ∷ ls) i =
    let (place, i') = at_header name (header l) i in fence_loop name place l ls i'
fence_loop name (some k) buff [] i = (note_line (read_line buff) k i).1
fence_loop name (some k) buff (l ∷ ls) i =
    let (k', i') = note_line (read_line l) k i in
    fence_loop name (if is_dashed l then none else some k') l ls i'

-- `amdGpuQueryFenceInfo` for the ring of a short name; `none` where `fopen` fails: then its NULL is read.
unfoldable pub amd_gpu_query_fence_info :
    (shortname : Bytes) → (lines : Option (List Bytes)) → Option (ℤ × AmdGpuFenceInfo)
unfolding fence_loop
amd_gpu_query_fence_info name none = none
amd_gpu_query_fence_info name (some ls) = some (pos 0, fence_loop name none [] ls no_fences)
