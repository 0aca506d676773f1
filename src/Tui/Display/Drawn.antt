-- ===== src/Tui/Display/Drawn.antt =====
-- What the update of the display page draws (tui/displayinfo.c).
use amdtop.Base.{
  ℕ, zero, suc, ◌≡◌, ◌≤◌, ◌⊎◌, inl, inr, refl, Bool, true, false, Option, none, some, ℤ, pos,
  negsuc, is_zero, length, ap, ◌∙◌, sym, if◌then◌else◌,
}
use mathlib.Core.Path.{subst}
use amdtop.Core.Mode.{Sys}
use amdtop.Tui.World
use amdtop.Tui.World.{WinType, World, Env, ◌>>◌, call, ignore, get_win, crash}
use amdtop.Tui.Screen.{window_clear}
use amdtop.Tui.Display.{DisplayState}
use amdtop.Tui.Display.Edid.{Edid}
use amdtop.Tui.Display.Query.{Query, Scratch, query_display_info, valid_state}
use amdtop.Tui.Display.Shown.{Same, need_update_display_info-Same}
use amdtop.Tui.Display.Page.{
  DisplayPage, has_handle, queried, query_page, take_over, update_display_info, need,
  refresh_display_ui, show_changes, tab_display_info_update,
}
use amdtop.Tui.Display.Current.{tab_display_info_update-Current}

value : {A : Type 0} {x y : A} → some x ≡ some y → x ≡ y
value f = cc

-- The window is cleared, the state is drawn and shown.
unfoldable pub drawing : Env → WinType → DisplayState → World → ℤ × World
drawing env t s w =
    (ignore (window_clear env t)
        >> refresh_display_ui env t s
        >> call (World.Call.wrefresh (get_win t w).nwin))
      w

-- The state that is kept and the world are as they were, or the state that is kept was drawn.
abbrev pub Drawn : Env → WinType → (before after : DisplayState) → (w w' : World) → Type 0
Drawn env t before after w w' =
    ((after ≡ before) × (w' ≡ w)) ⊎ (drawing env t after w ≡ (pos 0, w'))

module _ (env : Env) (e : Edid) (sys : Sys) (s : Scratch) where
  -- What `tabDisplayInfoUpdate` does after the state was taken over.
  abbrev outcome : WinType → World → Bool × ℤ × DisplayPage → ℤ × DisplayPage × World
  outcome t w (changed, ret, q) =
      let (ret', w') = drawing env t q.current_display_state w in
      if changed then (if is_zero ret then (ret', q, w') else (ret, q, w)) else (ret, q, w)

  Drawn-outcome :
      (t : WinType) (p p' : DisplayPage) (w w' : World) (r : Bool × ℤ × DisplayPage)
      → (r.0 ≡ false → (r.2).current_display_state ≡ p.current_display_state)
      → outcome t w r ≡ (pos 0, p', w')
      → Drawn env t p.current_display_state p'.current_display_state w w'
  Drawn-outcome t p p' w w' (false, ret, q) same f =
      let kept : q ≡ p' = ap (λ (r : ℤ × DisplayPage × World). r.1) f in
      inl (
        ap (λ x. x.current_display_state) (sym kept) ∙ same refl,
        ap (λ (r : ℤ × DisplayPage × World). r.2) (sym f),
      )
  Drawn-outcome t p p' w w' (true, pos zero, q) same f =
      let kept : q ≡ p' = ap (λ (r : ℤ × DisplayPage × World). r.1) f in
      inr (
        ap (λ x. drawing env t x.current_display_state w) (sym kept)
        ∙ ap (λ (r : ℤ × DisplayPage × World). (r.0, r.2)) f)
  Drawn-outcome t p p' w w' (true, pos (suc n), q) same f = cc
  Drawn-outcome t p p' w w' (true, negsuc n, q) same f = cc

  unchanged-take_over :
      (o : Option Bool) (p : DisplayPage)
      → (take_over e o p).0 ≡ false
      → (take_over e o p).2.current_display_state ≡ p.current_display_state
  unfolding take_over update_display_info
  unchanged-take_over none p f = refl
  unchanged-take_over (some false) p f = refl
  unchanged-take_over (some true) p f = cc

  Drawn-show_changes :
      (t : WinType) (p p' : DisplayPage) (w w' : World)
      → show_changes env e sys s t p w ≡ (pos 0, p', w')
      → Drawn env t p.current_display_state p'.current_display_state w w'
  unfolding show_changes drawing
  Drawn-show_changes t p p' w w' f =
      Drawn-outcome t p p' w w' (take_over e (need e p) p) (unchanged-take_over (need e p) p) f

  -- A query that succeeds leaves the state that is kept and the world alone.
  still-query_page :
      (fuel : ℕ) (p p' : DisplayPage) (w w' : World)
      → query_page env e sys s fuel p w ≡ some (pos 0, p', w')
      → (p'.current_display_state ≡ p.current_display_state) × (w' ≡ w)
  unfolding query_page queried
  still-query_page fuel p p' w w' =
      step (has_handle w) (query_display_info sys s fuel p.resource p.heap)
    where
      step :
          (b : Bool) (o : Option Query)
          → (if b
              then queried env e sys s p w o
              else some (negsuc 0, record p { display_state = valid_state }, (crash w).1))
            ≡ some (pos 0, p', w')
          → (p'.current_display_state ≡ p.current_display_state) × (w' ≡ w)
      step true none f = cc
      step true (some q) f =
          let same = value f in
          (
            ap (λ (r : ℤ × DisplayPage × World). r.1.current_display_state) (sym same),
            ap (λ (r : ℤ × DisplayPage × World). r.2) (sym same),
          )
      step false o f = cc

  -- When `tabDisplayInfoUpdate` returns 0, no memory fault has occurred, and neither the state that was
  -- read nor the one that is kept counts more displays than its array has elements, the kept state is
  -- the one that was read in the counts and the fields that the code compares, and either it is still
  -- the one from before and nothing was drawn, or the window was cleared and it was drawn and shown.
  pub tab_display_info_update-Drawn :
      (fuel : ℕ) (t : WinType) (p p' : DisplayPage) (w w' : World)
      → tab_display_info_update env e sys s fuel t p w ≡ some (pos 0, p', w')
      → p'.heap.fault ≡ false
      → p'.display_state.alive_connector_count ≤ length p'.display_state.displayinfo
      → p'.current_display_state.alive_connector_count ≤ length p'.current_display_state.displayinfo
      → Same p'.current_display_state p'.display_state
        × Drawn env t p.current_display_state p'.current_display_state w w'
  unfolding tab_display_info_update
  tab_display_info_update-Drawn fuel t p p' w w' f sound room room' = (
    (need_update_display_info-Same p'.current_display_state p'.display_state room').0
        (tab_display_info_update-Current env e sys s fuel t p p' w w' f sound room),
    step (query_page env e sys s fuel p w) refl f,
  )
    where
      after : ℤ × DisplayPage × World → ℤ × DisplayPage × World
      after r = if is_zero r.0 then show_changes env e sys s t r.1 r.2 else r

      through :
          (r : ℤ × DisplayPage × World)
          → query_page env e sys s fuel p w ≡ some r
          → after r ≡ (pos 0, p', w')
          → Drawn env t p.current_display_state p'.current_display_state w w'
      through (pos zero, q, v) g h =
          let (kept, still) = still-query_page fuel p q w v g in
          subst (λ c. Drawn env t c p'.current_display_state w w') kept
            (subst (λ u. Drawn env t q.current_display_state p'.current_display_state u w') still
              (Drawn-show_changes t q p' v w' h))
      through (pos (suc n), q, v) g h = cc
      through (negsuc n, q, v) g h = cc

      step :
          (o : Option (ℤ × DisplayPage × World))
          → query_page env e sys s fuel p w ≡ o
          → (elim o as (λ o. Option (ℤ × DisplayPage × World)) [
            | none ↦ none
            | some r ↦ some (after r)
          ])
            ≡ some (pos 0, p', w')
          → Drawn env t p.current_display_state p'.current_display_state w w'
      step none g h = cc
      step (some r) g h = through r g (value h)
