-- ===== src/Tui/TabWindow/Cycle.antt =====
-- The page keys of tui/tabwindow.c: `next_tab` against a walk round a circle.
use amdtop.Base.{ℕ, zero, suc, ◌+◌, ◌-◌, ◌%◌, ◌≡◌, ◌<◌, ◌^◌, arith, pos, leb, inl, inr, Bool-cases}
use native.Mathlib.Nat.{mod-eq_of_lt}
use amdtop.Tui.TabWindow.{key_npage, key_ppage, next_tab}

wrap_add : (n m r : ℕ) → m ≡ n + r → r < n → m % n ≡ r
wrap_add n m r e h = grind arith

wrap : (n m : ℕ) → m ≡ n → 0 < n → m % n ≡ 0
wrap n m e h = wrap_add n m 0 (omega arith) h

-- With fewer than 2 ^ 31 pages and one of them selected, Page Down goes one page on, and from the last page to the first.
next_tab-npage :
    (n i : ℕ) → 0 < n → n < 2 ^ 31 → i < n → next_tab n key_npage (pos i) ≡ pos ((i + 1) % n)
unfolding next_tab
next_tab-npage n i h k l = elim (Bool-cases (leb n (i + 1))) [
  | inl e ↦ let full : (i + 1) % n ≡ 0 = wrap n (i + 1) (ground arith) h in ground (arith, full)
  | inr e ↦ let same : (i + 1) % n ≡ i + 1 = mod-eq_of_lt (ground arith) in ground (arith, same)
]

-- With fewer than 2 ^ 31 pages and one of them selected, Page Up goes one page back, and from the first page to the last.
next_tab-ppage :
    (n i : ℕ) → 0 < n → n < 2 ^ 31 → i < n → next_tab n key_ppage (pos i) ≡ pos ((i + n - 1) % n)
unfolding next_tab
next_tab-ppage n zero h k l =
    let same : (0 + n - 1) % n ≡ 0 + n - 1 = mod-eq_of_lt (omega arith) in ground (arith, same)
next_tab-ppage n (suc i) h k l =
    let full : (suc i + n - 1) % n ≡ i = wrap_add n (suc i + n - 1) i (omega arith) (omega arith) in
    ground (arith, full)

-- With fewer than 2 ^ 31 pages and one of them selected, Page Up takes back Page Down, and Page Down takes back Page Up.
next_tab_inverse :
    (n i : ℕ)
    → 0 < n
    → n < 2 ^ 31
    → i < n
    → (next_tab n key_ppage (next_tab n key_npage (pos i)) ≡ pos i)
      × (next_tab n key_npage (next_tab n key_ppage (pos i)) ≡ pos i)
unfolding next_tab
next_tab_inverse n zero h k l = (ground arith, ground arith)
next_tab_inverse n (suc i) h k l = (ground arith, ground arith)
