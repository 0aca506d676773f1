-- ===== src/Tui/Display/Current.antt =====
-- The display page after its update handler (tui/displayinfo.c).
use amdtop.Base.{
  ℕ, zero, suc, ◌==◌, ◌≡◌, ◌≤◌, refl, Bool, true, false, Option, none, some, ℤ, pos, negsuc,
  is_zero, length, get_elem?, ap, ◌∙◌, sym, if◌then◌else◌,
}
use mathlib.Core.Path.{subst}
use amdtop.Core.Heap.{Heap, words_of}
use amdtop.Core.Mode.{Sys, ModeResource, Connector}
use amdtop.Core.Mode.Resources.{get_mode_resource}
use amdtop.Core.Mode.Connectors.{get_connector, free_connector}
use amdtop.Tui.World.{WinType, World, Env, crash}
use amdtop.Tui.Display.{DisplayInfo, DisplayState}
use amdtop.Tui.Display.Edid.{Edid}
use amdtop.Tui.Display.Query.{
  Query, Scratch, gpu_mode_connected, query_display, count_display, set_counts, query_round,
  query_at, query_loop, query_with, or_last, query_display_info, valid_state,
}
use amdtop.Tui.Display.Page.{
  DisplayPage, has_handle, queried, query_page, show_changes, tab_display_info_update,
}
use amdtop.Tui.Display.Refreshed.{Current, Current-shown}

abbrev choose : {A : Type 0} → A → A → Bool → A
choose x y b = if b then x else y

value : {A : Type 0} {x y : A} → some x ≡ some y → x ≡ y
value f = cc

either : {A : Type 0} (P : A → Type 0) (b : Bool) {x y : A} → P x → P y → P (if b then x else y)
either P true p q = p
either P false p q = q

module _ (sys : Sys) (s : Scratch) where
  valid-count_display :
      (c : Connector) (r : ℤ × DisplayInfo × Heap) (q : DisplayState)
      → (count_display sys s c r q).1.valid ≡ q.valid
  unfolding count_display
  valid-count_display c (pos zero, d, h) q = refl
  valid-count_display c (pos (suc n), d, h) q = refl
  valid-count_display c (negsuc n, d, h) q = refl

  valid-query_round :
      (r : ModeResource) (o : ℤ × Option Connector × Heap) (q : DisplayState)
      → (query_round sys s r o q).1.valid ≡ q.valid
  unfolding query_round
  valid-query_round r (ret, none, h) q = refl
  valid-query_round r (ret, some c, h) q =
      step (is_zero ret) (c.info.connection == gpu_mode_connected)
    where
      counted : ℤ × DisplayState × Heap
      counted = count_display sys s c (query_display sys s c h) (set_counts sys s r q)

      step :
          (a b : Bool)
          → (choose
              (if b then counted else (pos 0, q, (free_connector c h).1))
              (ret, q, h)
              a).1.valid
            ≡ q.valid
      step true true = valid-count_display c (query_display sys s c h) (set_counts sys s r q)
      step true false = refl
      step false b = refl

  valid-query_at :
      (r : ModeResource) (o : Option ℕ) (q : DisplayState) (h : Heap)
      → (query_at sys s r o q h).1.valid ≡ q.valid
  unfolding query_at
  valid-query_at r none q h = refl
  valid-query_at r (some id) q h = valid-query_round r (get_connector sys id h) q

  valid-query_loop :
      (r : ModeResource) (k i : ℕ) (q : DisplayState) (h : Heap)
      → (query_loop sys s r k i q h).1.valid ≡ q.valid
  unfolding query_loop
  valid-query_loop r zero i q h = refl
  valid-query_loop r (suc k) i q h =
      let here = query_at sys s r (get_elem? (words_of r.arrays.connector_ids) i) q h in
      either (λ (x : ℤ × DisplayState × Heap). x.1.valid ≡ q.valid) (is_zero here.0)
        (valid-query_loop r k (suc i) here.1 here.2
          ∙ valid-query_at r (get_elem? (words_of r.arrays.connector_ids) i) q h)
        (valid-query_at r (get_elem? (words_of r.arrays.connector_ids) i) q h)

  valid-query_with :
      (ret : ℤ) (o : Option ModeResource) (h : Heap) → (query_with sys s ret o h).state.valid ≡ true
  unfolding query_with
  valid-query_with ret none h = refl
  valid-query_with ret (some r) h =
      either (λ (x : Query). x.state.valid ≡ true) (is_zero ret)
        (valid-query_loop r r.counts.connectors 0 valid_state h) refl

  valid-query_display_info :
      (fuel : ℕ) (last : Option ModeResource) (h : Heap) (q : Query)
      → query_display_info sys s fuel last h ≡ some q
      → q.state.valid ≡ true
  unfolding query_display_info
  valid-query_display_info fuel last h q = step (get_mode_resource sys fuel h)
    where
      step :
          (o : Option (ℤ × Option ModeResource × Heap))
          → (elim o as (λ o. Option Query) [
            | none ↦ none
            | some r ↦ some (query_with sys s r.0 (or_last sys s r.1 last) r.2)
          ])
            ≡ some q
          → q.state.valid ≡ true
      step none f = cc
      step (some r) f =
          subst (λ (x : Query). x.state.valid ≡ true) (value f)
            (valid-query_with r.0 (or_last sys s r.1 last) r.2)

module _ (env : Env) (e : Edid) (sys : Sys) (s : Scratch) where
  valid-query_page :
      (fuel : ℕ) (p : DisplayPage) (w : World) (r : ℤ × DisplayPage × World)
      → query_page env e sys s fuel p w ≡ some r
      → r.1.display_state.valid ≡ true
  unfolding query_page queried
  valid-query_page fuel p w r = step (has_handle w)
    where
      through :
          (o : Option Query)
          → query_display_info sys s fuel p.resource p.heap ≡ o
          → queried env e sys s p w o ≡ some r
          → r.1.display_state.valid ≡ true
      through none g f = cc
      through (some q) g f =
          ap (λ (x : ℤ × DisplayPage × World). x.1.display_state.valid) (sym (value f))
          ∙ valid-query_display_info sys s fuel p.resource p.heap q g

      step :
          (b : Bool)
          → (if b
              then queried env e sys s p w (query_display_info sys s fuel p.resource p.heap)
              else some (negsuc 0, record p { display_state = valid_state }, (crash w).1))
            ≡ some r
          → r.1.display_state.valid ≡ true
      step true f = through (query_display_info sys s fuel p.resource p.heap) refl f
      step false f = ap (λ (x : ℤ × DisplayPage × World). x.1.display_state.valid) (sym (value f))

  -- When tabDisplayInfoUpdate returns 0, no memory fault has occurred, and it counts no more displays than
  -- its array has elements, the code would not draw the page again for the state just read.
  pub tab_display_info_update-Current :
      (fuel : ℕ) (t : WinType) (p p' : DisplayPage) (w w' : World)
      → tab_display_info_update env e sys s fuel t p w ≡ some (pos 0, p', w')
      → p'.heap.fault ≡ false
      → p'.display_state.alive_connector_count ≤ length p'.display_state.displayinfo
      → Current e p'
  unfolding tab_display_info_update
  tab_display_info_update-Current fuel t p p' w w' = step (query_page env e sys s fuel p w) refl
    where
      step :
          (o : Option (ℤ × DisplayPage × World))
          → query_page env e sys s fuel p w ≡ o
          → (elim o as (λ o. Option (ℤ × DisplayPage × World)) [
            | none ↦ none
            | some r ↦ some (if is_zero r.0 then show_changes env e sys s t r.1 r.2 else r)
          ])
            ≡ some (pos 0, p', w')
          → p'.heap.fault ≡ false
          → p'.display_state.alive_connector_count ≤ length p'.display_state.displayinfo
          → Current e p'
      step none g f = cc
      step (some r) g f =
          Current-shown env e sys s t r p' w' (valid-query_page fuel p w r g) (value f)
