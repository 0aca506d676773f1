-- ===== src/Core/Debug/Directory.antt =====
-- What the loop over the directory of debugfs collects (core/gpudridebug.c).
use amdtop.Base.{
  ℕ, suc, ◌<◌, ◌≡◌, refl, Bool, true, false, ◌||◌, none, some, List, [], ◌∷◌, ◌++◌, map, length,
  ltb, leb, arith, ap, ◌∙◌, sym, if◌then◌else◌, inl, inr, Bool-cases,
}
use mathlib.Core.Path.{subst}
use mathlib.Core.List.{append_assoc, append-nil, map-append}
use amdtop.Base.Text.{Bytes, take, drop}
use amdtop.Core.Debug.{
  AmdGpuRing, Scan, is_hidden, is_ring, store, parse_ring_info, add_entry, add_entries, no_rings,
  amd_gpu_ring_info, ring_name_size,
}

-- The entries that are rings, in the order of the directory.
unfoldable pub ring_names : List Bytes → List Bytes
ring_names [] = []
ring_names (e ∷ es) = if is_ring e then e ∷ ring_names es else ring_names es

-- Every short name leaves room for its end.
abbrev pub Fit : List Bytes → Type 0
Fit [] = Unit {0}
Fit (e ∷ es) = (length (take ring_name_size (drop 12 e)) < ring_name_size) × Fit es

-- What was collected from the rings of these names, for an array of n elements.
pub record Lists (n : ℕ) (names : List Bytes) (s : Scan) : Type 0 where
  pub each : map some s.rings ≡ map parse_ring_info names
  pub count : s.ring_num ≡ length names
  pub fault : s.fault ≡ ltb n (length names)

length-snoc : (es : List Bytes) (e : Bytes) → length (es ++ (e ∷ [])) ≡ suc (length es)
length-snoc [] e = refl
length-snoc (x ∷ es) e = ap suc (length-snoc es e)

parsed :
    (e : Bytes)
    → length (take ring_name_size (drop 12 e)) < ring_name_size
    → (r : AmdGpuRing) × (parse_ring_info e ≡ some r)
unfolding parse_ring_info
parsed e h =
    let t : ltb (length (take ring_name_size (drop 12 e))) ring_name_size ≡ true = ground arith in
    taken _ (ltb (length (take ring_name_size (drop 12 e))) ring_name_size) t
  where
    taken :
        (x : AmdGpuRing) (b : Bool)
        → b ≡ true
        → (y : AmdGpuRing) × ((if b then some x else none) ≡ some y)
    taken x true t = (x, refl)
    taken x false t = cc

store-Lists :
    (n : ℕ) (names : List Bytes) (s : Scan) (e : Bytes)
    → length (take ring_name_size (drop 12 e)) < ring_name_size
    → Lists n names s
    → Lists n (names ++ (e ∷ [])) (store n (parse_ring_info e) s)
store-Lists n names s e h l =
    let (r, p) = parsed e h in
    subst (λ o. Lists n (names ++ (e ∷ [])) (store n o s)) (sym p)
      (record {
        each =
            map-append some s.rings (r ∷ [])
            ∙ (ap (λ xs. xs ++ (some r ∷ [])) l.each
                ∙ (ap (λ o. map parse_ring_info names ++ (o ∷ [])) (sym p)
                    ∙ sym (map-append parse_ring_info names (e ∷ []))));
        count = omega (arith, l.count, length-snoc names e);
        fault =
            counts s.ring_num (length names) (length (names ++ (e ∷ []))) s.fault l.count
              (length-snoc names e) l.fault;
      })
  where
    counts : (k l m : ℕ) (f : Bool) → k ≡ l → m ≡ suc l → f ≡ ltb n l → (f || leb n k) ≡ ltb n m
    counts k l m f e e' e'' = ground arith

visible : (e : Bytes) → is_ring e ≡ true → is_hidden e ≡ false
visible [] h = refl
visible (c ∷ e) h = ground arith

add_entry-ring :
    (n : ℕ) (e : Bytes) (s : Scan)
    → is_ring e ≡ true
    → add_entry (some n) e s ≡ store n (parse_ring_info e) s
unfolding add_entry
add_entry-ring n e s y = simp (visible e y, y) refl

add_entry-other : (n : ℕ) (e : Bytes) (s : Scan) → is_ring e ≡ false → add_entry (some n) e s ≡ s
unfolding add_entry
add_entry-other n e s y = elim (Bool-cases (is_hidden e)) [
  | inl h ↦ simp h refl
  | inr h ↦ simp (h, y) refl
]

entries-Lists :
    (n : ℕ) (es names : List Bytes) (s : Scan)
    → Fit (ring_names es)
    → Lists n names s
    → Lists n (names ++ ring_names es) (add_entries (some n) es s)
unfolding add_entries ring_names
entries-Lists n [] names s f l = subst (λ ns. Lists n ns s) (sym (append-nil names)) l
entries-Lists n (e ∷ es) names s f l = elim (Bool-cases (is_ring e)) [
  | inl y ↦
      let (here, later) : Fit (e ∷ ring_names es) = subst Fit (taken y) f in
      let next =
        entries-Lists n es (names ++ (e ∷ [])) (store n (parse_ring_info e) s) later
          (store-Lists n names s e here l) in
      subst (λ t. Lists n (names ++ ring_names (e ∷ es)) (add_entries (some n) es t))
        (sym (add_entry-ring n e s y))
        (subst (λ ns. Lists n ns (add_entries (some n) es (store n (parse_ring_info e) s)))
          (append_assoc names (e ∷ []) (ring_names es) ∙ ap (λ ns. names ++ ns) (sym (taken y)))
          next)
  | inr y ↦
      subst (λ t. Lists n (names ++ ring_names (e ∷ es)) (add_entries (some n) es t))
        (sym (add_entry-other n e s y))
        (subst (λ ns. Lists n (names ++ ns) (add_entries (some n) es s)) (sym (left y))
          (entries-Lists n es names s (subst Fit (left y) f) l))
]
  where
    taken : is_ring e ≡ true → ring_names (e ∷ es) ≡ e ∷ ring_names es
    taken y = simp y refl

    left : is_ring e ≡ false → ring_names (e ∷ es) ≡ ring_names es
    left y = simp y refl

-- Of a directory whose ring names fit their buffers, amdGpuRingInfo gives the rings in the order of the
-- directory, each parsed, and their number; it writes behind the end of the array exactly when there are
-- more rings than it has elements.
pub amd_gpu_ring_info-Lists :
    (n : ℕ) (es : List Bytes)
    → Fit (ring_names es)
    → (s : Scan) × (amd_gpu_ring_info (some es) (some n) ≡ some s) × Lists n (ring_names es) s
unfolding amd_gpu_ring_info
amd_gpu_ring_info-Lists n es f = (
  add_entries (some n) es no_rings,
  refl,
  entries-Lists n es [] no_rings f (record { each = refl; count = refl; fault = ground arith }),
)
