-- ===== src/Tui/Selection/Refines.antt =====
-- The windows implement the selection: pressing keys is acting on the view.
use amdtop.Base.{
  ℕ, zero, suc, ◌≡◌, ◌≤◌, ◌<◌, ◌∙◌, refl, List, [], ◌∷◌, ℤ, pos, negsuc, leb, if◌then◌else◌, arith,
  ap, sym,
}
use amdtop.Tui.World.{World, Env}
use amdtop.Tui.TabWindow.{next_tab}
use amdtop.Tui.DeviceWindow.{next_device}
use amdtop.Tui.Dispatch.{windows_dispatch_input}
use amdtop.Tui.Main.{all_ops}
use amdtop.Tui.Frame.Dispatch.{Frame-windows_dispatch_input}
use amdtop.Tui.Invariant.{Below, Good-TabOk}
use amdtop.Tui.Invariant.Reach.{Inv, dispatch-Inv}
use amdtop.Tui.Selection.{
  Selection, Action, next_page, previous_page, previous_card, next_card, other, act, act_all,
  action, actions, index, view, press,
}

-- The page that a key leads to, and the card.
page-act :
    (ch t : ℤ) (cards card : ℕ)
    → Below t 10
    → index (next_tab 10 ch t)
      ≡ (act (action ch) (record { pages = 10; cards = cards; page = index t; card = card })).page
unfolding next_tab act action
page-act (pos ch) (pos zero) cards card h = ground arith
page-act (pos ch) (pos (suc t)) cards card h = ground arith
page-act (negsuc ch) (pos t) cards card h = refl
page-act ch (negsuc t) cards card h = absurd h

card-act :
    (ch d : ℤ) (pages cards page : ℕ)
    → cards ≤ 8
    → Below d (suc cards)
    → (0 < cards → Below d cards)
    → index (if leb cards 1 then d else next_device cards ch d)
      ≡ (act
          (action ch)
          (record { pages = pages; cards = cards; page = page; card = index d })).card
unfolding next_device act action
card-act (pos ch) (pos zero) pages cards page few h k = ground arith
card-act (pos ch) (pos (suc d)) pages cards page few h k = ground arith
card-act (negsuc ch) (pos d) pages cards page few h k = ground arith
card-act ch (negsuc d) pages cards page few h k = absurd h

Selection-ext :
    (s t : Selection)
    → s.pages ≡ t.pages
    → s.cards ≡ t.cards
    → s.page ≡ t.page
    → s.card ≡ t.card
    → s ≡ t
Selection-ext s t a b c d = λ i. record { pages = a i; cards = b i; page = c i; card = d i }

pages-act : (a : Action) (s : Selection) → (act a s).pages ≡ s.pages
unfolding act
pages-act next_page s = refl
pages-act previous_page s = refl
pages-act previous_card s = refl
pages-act next_card s = refl
pages-act other s = refl

cards-act : (a : Action) (s : Selection) → (act a s).cards ≡ s.cards
unfolding act
cards-act next_page s = refl
cards-act previous_page s = refl
cards-act previous_card s = refl
cards-act next_card s = refl
cards-act other s = refl

view-windows_dispatch_input :
    (env : Env) (ch : ℤ) (w : World)
    → Inv w
    → view (windows_dispatch_input (all_ops env) ch w).1 ≡ act (action ch) (view w)
unfolding view
view-windows_dispatch_input env ch w i =
    let f = Frame-windows_dispatch_input env ch w i.ready.setup (Good-TabOk i.good) in
    let ten : w.tab_count ≡ 10 = i.ready.count in
    let page : index (next_tab w.tab_count ch w.active_tab) ≡ (act (action ch) (view w)).page =
      simp ten (page-act ch w.active_tab w.dctx.device_count (index w.active_device) i.good.tab) in
    let card =
      card-act ch w.active_device w.tab_count w.dctx.device_count (index w.active_tab)
        i.good.table.few i.good.device.0 i.good.device.1 in
    Selection-ext _ (act (action ch) (view w)) (f.count ∙ sym (pages-act (action ch) (view w)))
      (ap (λ c. c.device_count) f.table ∙ sym (cards-act (action ch) (view w)))
      (ap index f.tab ∙ page) (ap index f.device ∙ card)

-- From a state with the invariant, pressing any keys one after the other takes the view of the state
-- where the actions of those keys take it, and ends in a state with the invariant: the two windows, with
-- their redrawing, implement a ring of pages and a row of cards.
pub press_refines :
    (env : Env) (keys : List ℤ) (w : World)
    → Inv w
    → (view (press env keys w) ≡ act_all (actions keys) (view w)) × Inv (press env keys w)
unfolding press act_all actions
press_refines env [] w i = (refl, i)
press_refines env (ch ∷ rest) w i =
    let step = view-windows_dispatch_input env ch w i in
    let (e, j) =
      press_refines env rest (windows_dispatch_input (all_ops env) ch w).1
        (dispatch-Inv env ch w i) in
    (e ∙ ap (act_all (actions rest)) step, j)
