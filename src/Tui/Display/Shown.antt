-- ===== src/Tui/Display/Shown.antt =====
-- What the display page compares (tui/displayinfo.c).
use amdtop.Base.{
  ℕ, zero, suc, ◌+◌, ◌==◌, ◌≡◌, ◌≤◌, ◌<◌, ◌∙◌, Bool, true, false, not, ◌||◌, Option, none, some,
  List, get_elem?, if◌then◌else◌, length, is_some, get_elem?-lt, inl, inr, Bool-cases, ◌↔◌, refl,
  arith, ap, sym,
}
use mathlib.Core.Path.{subst}
use amdtop.Tui.Display.{
  DisplayInfo, DisplayState, same_bool, differs, differs_at, need_loop, need_update_display_info,
}

-- What is compared of a display, and of the first k displays from `i` on.
pub record View : Type 0 where
  pub dpms_value : ℕ
  pub present : Bool
  pub startx : ℕ
  pub starty : ℕ
  pub width : ℕ
  pub height : ℕ

abbrev pub view : DisplayInfo → View
view d = record {
  dpms_value = d.dpms_value;
  present = d.present;
  startx = d.startx;
  starty = d.starty;
  width = d.width;
  height = d.height;
}

abbrev pub view_at : List DisplayInfo → ℕ → Option View
view_at ds i = elim (get_elem? ds i) [ none ↦ none | some d ↦ some (view d) ]

-- Two states in which the page shows the same: the current one is valid, the counts are the same, and so is
-- what is compared of each display.
pub record Same (cur new : DisplayState) : Type 0 where
  pub valid : cur.valid ≡ true
  pub connectors : cur.connector_count ≡ new.connector_count
  pub displays : cur.alive_connector_count ≡ new.alive_connector_count
  pub views :
      (i : ℕ)
      → i < cur.alive_connector_count
      → view_at cur.displayinfo i ≡ view_at new.displayinfo i

-- The equations of the six tests.
tests :
    (d d' x x' y y' w w' h h' : ℕ) (p p' : Bool)
    → (not (d == d')
        || not (same_bool p p')
        || (not (y == y') || not (x == x') || not (w == w') || not (h == h')))
      ≡ false
    → (d ≡ d') × (p ≡ p') × (x ≡ x') × (y ≡ y') × (w ≡ w') × (h ≡ h')
tests d d' x x' y y' w w' h h' p p' e =
    (ground arith, ground arith, ground arith, ground arith, ground arith, ground arith)

differs-view : (a b : DisplayInfo) → differs a b ≡ false → view a ≡ view b
unfolding differs
differs-view a b e =
    let (d, p, x, y, w, h) =
      tests a.dpms_value b.dpms_value a.startx b.startx a.starty b.starty a.width b.width a.height
        b.height a.present b.present e in
    λ i. record {
      dpms_value = d i;
      present = p i;
      startx = x i;
      starty = y i;
      width = w i;
      height = h i;
    }

same-differs :
    (d x y w h : ℕ) (p : Bool)
    → (not (d == d)
        || not (same_bool p p)
        || (not (y == y) || not (x == x) || not (w == w) || not (h == h)))
      ≡ false
same-differs d x y w h p = ground arith

abbrev view_differs : View → View → Bool
view_differs a b =
    not (a.dpms_value == b.dpms_value)
    || not (same_bool a.present b.present)
    || (not (a.starty == b.starty)
        || not (a.startx == b.startx)
        || not (a.width == b.width)
        || not (a.height == b.height))

view-differs : (a b : DisplayInfo) → view a ≡ view b → differs a b ≡ false
unfolding differs
view-differs a b e =
    ap (view_differs (view a)) (sym e)
    ∙ same-differs a.dpms_value a.startx a.starty a.width a.height a.present

-- One round of the loop, for the two elements and the rounds after it.
stop_lem :
    (x y : Option DisplayInfo) (rest : Option Bool)
    → (elim (differs_at x y) as (λ o. Option Bool) [
      | none ↦ none
      | some d ↦ if d then some true else rest
    ])
      ≡ some false
    → (rest ≡ some false)
      × ((elim x as (λ o. Option View) [ none ↦ none | some d ↦ some (view d) ])
          ≡ elim y as (λ o. Option View) [ none ↦ none | some d ↦ some (view d) ])
stop_lem none y rest e = cc
stop_lem (some a) none rest e = cc
stop_lem (some a) (some b) rest e = step (differs a b) refl e
  where
    step :
        (d : Bool)
        → differs a b ≡ d
        → (if d then some true else rest) ≡ some false
        → (rest ≡ some false) × (◌≡◌ {A = Option View} (some (view a)) (some (view b)))
    step true f g = cc
    step false f g = (g, ap some (differs-view a b f))

or_else : View → Option View → View
or_else v none = v
or_else v (some u) = u

go_lem :
    (x y : Option DisplayInfo) (rest : Option Bool)
    → is_some x ≡ true
    → (elim x as (λ o. Option View) [ none ↦ none | some d ↦ some (view d) ])
      ≡ elim y as (λ o. Option View) [ none ↦ none | some d ↦ some (view d) ]
    → rest ≡ some false
    → (elim (differs_at x y) as (λ o. Option Bool) [
      | none ↦ none
      | some d ↦ if d then some true else rest
    ])
      ≡ some false
unfolding or_else
go_lem none y rest t e r = cc
go_lem (some a) none rest t e r = cc
go_lem (some a) (some b) rest t e r =
    let same : differs a b ≡ false = view-differs a b (ap (or_else (view a)) e) in simp same r

module _ (cur new : List DisplayInfo) where
  need_loop-views :
      (k i m : ℕ)
      → need_loop cur new k i ≡ some false
      → i ≤ m
      → m < i + k
      → view_at cur m ≡ view_at new m
  unfolding need_loop
  need_loop-views zero i m e l h = elim (empty i m l h) [ ]
    where
      empty : (i m : ℕ) → i ≤ m → m < i + zero → 0 < 0
      empty i m l h = omega arith
  need_loop-views (suc k) i m e l h =
      let (rest, here) =
        stop_lem (get_elem? cur i) (get_elem? new i) (need_loop cur new k (suc i)) e in
      elim (Bool-cases (m == i)) [
        | inl same ↦
            let f : i ≡ m = ground arith in subst (λ n. view_at cur n ≡ view_at new n) f here
        | inr other ↦ need_loop-views k (suc i) m rest (ground arith) (omega arith)
      ]

  views-need_loop :
      (k i : ℕ)
      → i + k ≤ length cur
      → ((m : ℕ) → i ≤ m → m < i + k → view_at cur m ≡ view_at new m)
      → need_loop cur new k i ≡ some false
  unfolding need_loop
  views-need_loop zero i room same = refl
  views-need_loop (suc k) i room same =
      go_lem (get_elem? cur i) (get_elem? new i) (need_loop cur new k (suc i))
        (get_elem?-lt cur i (omega arith)) (same i (omega arith) (omega arith))
        (views-need_loop k (suc i) (omega arith) (λ m l h. same m (omega arith) (omega arith)))

-- The three tests before the loop.
passed :
    (v c n : Bool) (rest : Option Bool)
    → (if not v
        then some true
        else (if not c then some true else (if not n then some true else rest)))
      ≡ some false
    → (v ≡ true) × (c ≡ true) × (n ≡ true) × (rest ≡ some false)
passed true true true rest e = (refl, refl, refl, e)
passed true true false rest e = cc
passed true false n rest e = cc
passed false c n rest e = cc

equal : (a b : ℕ) → (a == b) ≡ true → a ≡ b
equal a b e = ground arith

pub need_update_display_info-Same :
    (cur new : DisplayState)
    → cur.alive_connector_count ≤ length cur.displayinfo
    → (need_update_display_info cur new ≡ some false) ↔ Same cur new
unfolding need_update_display_info
need_update_display_info-Same cur new room = (
  λ e.
      let n = cur.alive_connector_count in
      let (v, c, d, rest) =
        passed cur.valid (cur.connector_count == new.connector_count)
          (n == new.alive_connector_count) (need_loop cur.displayinfo new.displayinfo n 0) e in
      record {
        valid = v;
        connectors = equal cur.connector_count new.connector_count c;
        displays = equal n new.alive_connector_count d;
        views = λ i l.
            need_loop-views cur.displayinfo new.displayinfo n 0 i rest (omega arith) (omega arith);
      },
  λ s.
      let c : (cur.connector_count == new.connector_count) ≡ true =
        itself cur.connector_count new.connector_count s.connectors in
      let d : (cur.alive_connector_count == new.alive_connector_count) ≡ true =
        itself cur.alive_connector_count new.alive_connector_count s.displays in
      simp (s.valid, c, d)
        (views-need_loop cur.displayinfo new.displayinfo cur.alive_connector_count 0 (omega arith)
          (λ m l h. s.views m (omega arith))),
)
  where
    itself : (a b : ℕ) → a ≡ b → (a == b) ≡ true
    itself a b e = ground arith
