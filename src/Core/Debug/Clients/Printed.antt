-- ===== src/Core/Debug/Clients/Printed.antt =====
-- The clients file as the kernel prints it, and what the program reads of it (core/gpudridebug.c).
use amdtop.Base.{
  ℕ, zero, suc, ◌-◌, ◌^◌, ◌≤◌, ◌<◌, ◌≡◌, refl, true, false, none, some, List, [], ◌∷◌, ◌++◌, pos,
  length, arith, ap, ◌∙◌, sym, u32_mod,
}
use native.Mathlib.Nat.{mod-eq_of_lt}
use amdtop.Base.Text.{Bytes, codes, contains, take, is_digit, is_space, skip_space}
use amdtop.Base.Text.Digits.{show}
use amdtop.Core.Debug.Clients.{
  AmdGpuClientInfo, read_command, read_client, client_loop, word_width, amd_gpu_query_client_info,
}
use amdtop.Core.Debug.Clients.Words.{
  spaces, pad, AreSolid, skip_space-spaces, skip_space-solid, read_command-spaces, read_u32-spaces,
}

-- What stands behind the command: " %5d %3d   %c    %c %5d %10u\n" of the kernel.
abbrev after_uid : AmdGpuClientInfo → Bytes → Bytes
after_uid c t = b' ' ∷ pad 10 (show c.magic) (10 ∷ t)

abbrev after_a : AmdGpuClientInfo → Bytes → Bytes
after_a c t = b' ' ∷ pad 5 (show c.uid) (after_uid c t)

abbrev after_master : AmdGpuClientInfo → Bytes → Bytes
after_master c t = codes "    " ++ (c.a ∷ after_a c t)

abbrev after_dev : AmdGpuClientInfo → Bytes → Bytes
after_dev c t = codes "   " ++ (c.master ∷ after_master c t)

abbrev after_pid : AmdGpuClientInfo → Bytes → Bytes
after_pid c t = b' ' ∷ pad 3 (show c.dev) (after_dev c t)

abbrev after_command : AmdGpuClientInfo → Bytes → Bytes
after_command c t = b' ' ∷ pad 5 (show c.pid) (after_pid c t)

-- A client behind so many blanks, in front of more text.
abbrev client_line : (blanks : ℕ) → AmdGpuClientInfo → Bytes → Bytes
client_line k c t = spaces k (c.command ++ after_command c t)

unfoldable pub print_clients : List AmdGpuClientInfo → Bytes
print_clients [] = []
print_clients (c ∷ cs) = client_line (20 - length c.command) c (print_clients cs)

-- A command of one word that fits its field.
abbrev pub IsCommand : Bytes → Type 0
IsCommand [] = ⊥
IsCommand (c ∷ s) = AreSolid (c ∷ s) × (length (c ∷ s) ≤ 20)

-- The numbers fit their fields, and the two marks are no blanks.
pub record Fits (c : AmdGpuClientInfo) : Type 0 where
  pub command : IsCommand c.command
  pub pid : c.pid < 10 ^ 5
  pub dev : c.dev < 10 ^ 3
  pub master : is_space c.master ≡ false
  pub a : is_space c.a ≡ false
  pub uid : c.uid < 10 ^ 5
  pub magic : c.magic < u32_mod

abbrev pub AllFit : List AmdGpuClientInfo → Type 0
AllFit [] = Unit {0}
AllFit (c ∷ cs) = Fits c × AllFit cs

read_command-line :
    (s : Bytes) (k : ℕ) (t : Bytes)
    → IsCommand s
    → read_command (spaces k (s ++ (b' ' ∷ t))) ≡ some (s, b' ' ∷ t)
read_command-line [] k t h = elim h [ ]
read_command-line (c ∷ s) k t (h, l) = read_command-spaces k c s t h l

skip_space-line :
    (s : Bytes) (k : ℕ) (t : Bytes) → IsCommand s → skip_space (spaces k (s ++ t)) ≡ s ++ t
skip_space-line [] k t h = elim h [ ]
skip_space-line (c ∷ s) k t ((h, hs), l) =
    skip_space-spaces k ((c ∷ s) ++ t) ∙ skip_space-solid c (s ++ t) h

blank_ends : is_digit b' ' ≡ false
unfolding is_digit
blank_ends = refl

newline_ends : is_digit 10 ≡ false
unfolding is_digit
newline_ends = refl

module _ (c : AmdGpuClientInfo) (t : Bytes) where
  read_master : is_space c.master ≡ false → skip_space (after_dev c t) ≡ c.master ∷ after_master c t
  read_master e =
      skip_space-spaces 3 (c.master ∷ after_master c t)
      ∙ skip_space-solid c.master (after_master c t) e

  read_a : is_space c.a ≡ false → skip_space (after_master c t) ≡ c.a ∷ after_a c t
  read_a e = skip_space-spaces 4 (c.a ∷ after_a c t) ∙ skip_space-solid c.a (after_a c t) e

  read_client-line :
      (k : ℕ) → Fits c → read_client (client_line k c t) ≡ some (c, skip_space (10 ∷ t))
  unfolding read_client
  read_client-line k f =
      simp
        (
          read_command-line c.command k (pad 5 (show c.pid) (after_pid c t)) f.command,
          read_u32-spaces 5 (suc (5 - length (show c.pid))) c.pid b' '
              (pad 3 (show c.dev) (after_dev c t)) f.pid (omega arith) blank_ends,
          read_u32-spaces 3 (suc (3 - length (show c.dev))) c.dev b' '
              (b' ' ∷ b' ' ∷ c.master ∷ after_master c t) f.dev (omega arith) blank_ends,
          read_master f.master,
          read_a f.a,
          read_u32-spaces 5 (suc (5 - length (show c.uid))) c.uid b' '
              (pad 10 (show c.magic) (10 ∷ t)) f.uid (omega arith) blank_ends,
          read_u32-spaces 10 (suc (10 - length (show c.magic))) c.magic 10 t (small f.magic)
              (omega arith) newline_ends,
          mod-eq_of_lt (large f.pid),
          mod-eq_of_lt (largest f.dev),
          mod-eq_of_lt (large f.uid),
          mod-eq_of_lt f.magic,
        )
        refl
    where
      small : c.magic < u32_mod → c.magic < 10 ^ 10
      small h = omega arith

      large : {n : ℕ} → n < 10 ^ 5 → n < u32_mod
      large h = omega arith

      largest : {n : ℕ} → n < 10 ^ 3 → n < u32_mod
      largest h = omega arith

-- One client more, for any number of rounds.
abbrev next_clients : ℕ → Bytes → List AmdGpuClientInfo
next_clients k [] = []
next_clients k (c ∷ s) = client_loop k (c ∷ s)

client_loop-some :
    (k : ℕ) (s : Bytes) (c : AmdGpuClientInfo) (r : Bytes)
    → read_client s ≡ some (c, r)
    → client_loop (suc k) s ≡ c ∷ next_clients k r
unfolding client_loop
client_loop-some k s c r e =
    ap
      (λ o. elim o as (λ o. List AmdGpuClientInfo) [
        | none ↦ []
        | some r' ↦ r'.0 ∷ next_clients k r'.1
      ])
      e

next_clients-line :
    (k : ℕ) (s t : Bytes) → IsCommand s → next_clients k (s ++ t) ≡ client_loop k (s ++ t)
next_clients-line k [] t h = elim h [ ]
next_clients-line k (c ∷ s) t h = refl

take-nil : (n : ℕ) → take {A = AmdGpuClientInfo} n [] ≡ []
take-nil zero = refl
take-nil (suc n) = refl

client_loop-line :
    (k n : ℕ) (c : AmdGpuClientInfo) (cs : List AmdGpuClientInfo)
    → Fits c
    → AllFit cs
    → client_loop n (client_line k c (print_clients cs)) ≡ take n (c ∷ cs)
unfolding client_loop print_clients skip_space is_space
client_loop-line k zero c cs f fs = refl
client_loop-line k (suc n) c [] f fs =
    client_loop-some n (client_line k c []) c [] (read_client-line c [] k f)
    ∙ ap (λ xs. c ∷ xs) (sym (take-nil n))
client_loop-line k (suc n) c (d ∷ cs) f (g, gs) =
    client_loop-some n (client_line k c (print_clients (d ∷ cs))) c
      (skip_space (10 ∷ print_clients (d ∷ cs))) (read_client-line c (print_clients (d ∷ cs)) k f)
    ∙ (ap (λ s. c ∷ next_clients n s)
          (skip_space-line d.command (20 - length d.command) (after_command d (print_clients cs))
            g.command)
        ∙ ap (λ xs. c ∷ xs)
            (next_clients-line n d.command (after_command d (print_clients cs)) g.command
              ∙ client_loop-line 0 n d cs g gs))

client_loop-print :
    (n : ℕ) (cs : List AmdGpuClientInfo) → AllFit cs → client_loop n (print_clients cs) ≡ take n cs
unfolding client_loop print_clients read_client read_command word_width skip_space
client_loop-print zero cs fs = refl
client_loop-print (suc n) [] fs = refl
client_loop-print (suc n) (c ∷ cs) (f, fs) =
    client_loop-line (20 - length c.command) (suc n) c cs f fs

-- Of a clients file as the kernel prints it, amdGpuQueryClientInfo gives the clients in their order, as
-- many as the array has room for, and closes the file: when the first line names the masters, the commands are single
-- words, and all numbers fit the columns they are printed in.
pub amd_gpu_query_client_info-take :
    (max : ℕ) (first : Bytes) (cs : List AmdGpuClientInfo)
    → contains (codes "master") first ≡ true
    → AllFit cs
    → amd_gpu_query_client_info max (some (first, print_clients cs))
      ≡ record { ret = pos 0; clients = some (take max cs); open_files = 0 }
unfolding amd_gpu_query_client_info
amd_gpu_query_client_info-take max first cs m fs = simp (m, client_loop-print max cs fs) refl
