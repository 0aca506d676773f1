-- ===== src/Tui/Frame/Pages.antt =====
-- The handlers of the main and the status window leave the selections and the device table alone.
use amdtop.Base.{
  ℕ, ◌+◌, ◌≡◌, refl, Bool, true, ◌||◌, Option, none, some, List, [], ◌∷◌, inl, inr, Bool-cases,
  Option-cases, ℤ, is_some, is_zero, is_neg, to_u32,
}
use amdtop.Tui.Device.{Device, device_driver_is_loaded}
use amdtop.Tui.World
use amdtop.Tui.World.{
  main, status, ColorType, Text, lit, World, Call, Cmd, Env, ◌>>◌, ◌>>=◌, call, ignore, return,
  modify, when, crash, get_active_device,
}
use amdtop.Tui.Screen.{mvwprintwc_center}
use amdtop.Tui.Tabinfo.{
  TabId, get_tab_info_by_index, run_handler, tabinfo_init, tabinfo_exit, tabinfo_update, label_name,
}
use amdtop.Tui.MainWindow.{
  main_init, main_exit, redraw_main, answer_exit, exit_program, print_lines, show_help,
  helper_handler, help_startx, help_starty, main_handle_input, main_update, needs_no_driver,
  tab_is_due, is_key,
}
use amdtop.Tui.Dispatch.{read_clock}
use amdtop.Tui.StatusWindow.{
  print_load, update_status, print_device_info, print_active, status_init, status_exit,
  status_update,
}
use amdtop.Tui.Frame.{
  Frame, Frame-refl, Frame-trans, Keeps, Keeps-call, Keeps-return, Keeps-modify, keeps,
}
use amdtop.Tui.Frame.Drawing.{
  Frame-log, Keeps-window_clear, Keeps-mvwprintwc, Keeps-mvwprintwc_center, Keeps-winframe,
}
use Prim.Native.String.{String}

Frame-times : {q : Bool} (w : World) (f : ℕ → ℕ) → Frame q w (record w { tab_times = f })
Frame-times w f = record {
  device = refl;
  tab = refl;
  table = refl;
  count = refl;
  setup = refl;
  exit = λ h. refl;
  fault = λ h. refl;
}

Frame-handler :
    {q : Bool} (o : Option (ℤ × List Call × Bool)) (h : World → Option (ℤ × List Call × Bool))
    (w : World)
    → h w ≡ o
    → Frame q w (run_handler h w).1
unfolding run_handler
Frame-handler none h w e = rw (e, run_handler) (Frame-refl w)
Frame-handler (some (ret, calls, crashed)) h w e =
    rw (e, run_handler)
      (record {
        device = refl;
        tab = refl;
        table = refl;
        count = refl;
        setup = refl;
        exit = λ h. refl;
        fault = λ h. refl;
      })

module _ (env : Env) {q : Bool} where
  pub Frame-tabinfo_init : (i : ℕ) (w : World) → Frame q w (tabinfo_init env i w).1
  unfolding tabinfo_init
  Frame-tabinfo_init i w = elim (Bool-cases (is_some (get_tab_info_by_index i))) [
    | inl e ↦
        rw e
          (Frame-trans (Frame-handler (env.tab_init i w) (env.tab_init i) w refl) (Frame-times _ _))
    | inr e ↦ rw e (Frame-refl w)
  ]

  pub Frame-tabinfo_exit : (i : ℕ) (w : World) → Frame q w (tabinfo_exit env i w).1
  unfolding tabinfo_exit
  Frame-tabinfo_exit i w = elim (Bool-cases (is_some (get_tab_info_by_index i))) [
    | inl e ↦ rw e (Frame-handler (env.tab_exit i w) (env.tab_exit i) w refl)
    | inr e ↦ rw e (Frame-refl w)
  ]

  pub Frame-tabinfo_update : (i : ℕ) (w : World) → Frame q w (tabinfo_update env i w).1
  unfolding tabinfo_update
  Frame-tabinfo_update i w = elim (Bool-cases (is_some (get_tab_info_by_index i))) [
    | inl e ↦ rw e (Frame-handler (env.tab_update i w) (env.tab_update i) w refl)
    | inr e ↦ rw e (Frame-refl w)
  ]

  pub Keeps-main_exit : Keeps q (main_exit env)
  unfolding main_exit ignore
  Keeps-main_exit = record { apply = λ w. Frame-tabinfo_exit (to_u32 w.active_tab) w }

Frame-crash :
    {q : Bool} (w : World)
    → get_tab_info_by_index (to_u32 w.active_tab) ≡ none
    → Frame q w (crash w).1
unfolding crash
Frame-crash w e = record {
  device = refl;
  tab = refl;
  table = refl;
  count = refl;
  setup = refl;
  exit = λ h. refl;
  fault = λ h. let none_is_some = rw e at h in cc;
}

module _ (env : Env) {q : Bool} where
  Keeps-no_driver :
      (n : Option ℕ) (id : TabId)
      → Keeps q (do
        mvwprintwc_center env n ColorType.red (lit (label_name id)) 33
        call (World.Call.wrefresh n))
  Keeps-no_driver n id = search (keeps, Keeps-mvwprintwc_center) depth 12

  pub Keeps-main_init : Keeps q (main_init env)
  unfolding main_init
  Keeps-main_init = record {
    apply = λ w. elim (Option-cases (get_tab_info_by_index (to_u32 w.active_tab))) [
      | inl e ↦ rw (e, main_init) (Frame-crash w e)
      | inr (id, e) ↦
          elim (Bool-cases (needs_no_driver id || device_driver_is_loaded (get_active_device w))) [
            | inl b ↦ rw (e, main_init) (rw b (Frame-tabinfo_init env (to_u32 w.active_tab) w))
            | inr b ↦ rw (e, main_init) (rw b ((Keeps-no_driver w.main_win.nwin id).apply w))
          ]
    ];
  }

  pub Keeps-redraw_main : Keeps q (redraw_main env)
  unfolding redraw_main
  Keeps-redraw_main = search (keeps, Keeps-main_init, Keeps-main_exit, Keeps-window_clear)

  Frame-print_lines :
      (n : Option ℕ) (y x : ℕ) (ss : List String) (w : World)
      → Frame q w (print_lines env n y x ss w).1
  unfolding print_lines
  Frame-print_lines n y x [] w = Frame-refl w
  Frame-print_lines n y x (s ∷ ss) w =
      Frame-trans ((Keeps-mvwprintwc env n y x ColorType.default (lit s)).apply w)
        (Frame-print_lines n (y + 1) x ss _)

  Keeps-print_lines :
      (n : Option ℕ) (y x : ℕ) (ss : List String) → Keeps q (print_lines env n y x ss)
  Keeps-print_lines n y x ss = record { apply = Frame-print_lines n y x ss }

  Keeps-show_help : (y x : ℕ) → Keeps q (show_help env y x)
  unfolding show_help
  Keeps-show_help y x =
      search (keeps, Keeps-redraw_main, Keeps-window_clear, Keeps-print_lines, Keeps-winframe) depth
        16

  Keeps-helper_handler : Keeps q (helper_handler env)
  unfolding helper_handler
  Keeps-helper_handler = record {
    apply = λ w.
        let y = help_starty w.main_win.layout.height in
        let x = help_startx w.main_win.layout.width in
        elim (Bool-cases (is_neg x || is_neg y)) [
          | inl b ↦ rw b (Frame-refl w)
          | inr b ↦ rw b ((Keeps-show_help (to_u32 y) (to_u32 x)).apply w)
        ];
  }

  pub Keeps-print_load : (l : ℕ) → Keeps q (print_load env l)
  unfolding print_load
  Keeps-print_load l = search (keeps, Keeps-mvwprintwc) depth 16

  pub Keeps-update_status : Keeps q (update_status env)
  unfolding update_status
  Keeps-update_status = search (keeps, Keeps-print_load) depth 16

  Keeps-print_device_info : (d : Device) → Keeps q (print_device_info env d)
  unfolding print_device_info
  Keeps-print_device_info d = search (keeps, Keeps-mvwprintwc) depth 16

  Keeps-print_active : (d : Option Device) → Keeps q (print_active env d)
  unfolding print_active
  Keeps-print_active none = record { apply = Frame-refl }
  Keeps-print_active (some d) = record { apply = (Keeps-print_device_info d).apply }

  pub Keeps-status_init : Keeps q (status_init env)
  unfolding status_init
  Keeps-status_init = search (keeps, Keeps-print_active, Keeps-update_status) depth 16

  pub Frame-status_update : (flags : ℕ) (w : World) → Frame q w (status_update env flags w).1
  unfolding status_update
  Frame-status_update flags w = Frame-trans (Keeps-update_status.apply w) ((Keeps-call _).apply _)

  pub Keeps-status_exit : Keeps q (status_exit env)
  unfolding status_exit
  Keeps-status_exit = Keeps-return _

  Frame-read_clock : (w : World) → Frame q w (read_clock env w).1
  Frame-read_clock w = Frame-log w _

  pub Frame-main_update : (flags : ℕ) (w : World) → Frame q w (main_update env flags w).1
  unfolding main_update
  Frame-main_update flags w0 =
      let w = (read_clock env w0).1 in
      let first = Frame-read_clock w0 in
      let ran = Frame-trans first (Frame-tabinfo_update env (to_u32 w.active_tab) w) in
      elim (Bool-cases (device_driver_is_loaded (get_active_device w))) [
        | inr e ↦ rw e first
        | inl e ↦ elim (Option-cases (get_tab_info_by_index (to_u32 w.active_tab))) [
          | inl t ↦ rw (e, t) (Frame-trans first (Frame-crash w t))
          | inr (id, t) ↦
              rw (e, t)
                (elim (Bool-cases (tab_is_due env (read_clock env w0).0 id w)) [
                  | inr due ↦ rw due first
                  | inl due ↦
                      rw due
                        (elim (Bool-cases
                          (is_zero (tabinfo_update env (to_u32 w.active_tab) w).0)) [
                            | inl z ↦ rw z (
                                Frame-trans ran
                                  (Frame-trans (Frame-read_clock _) (Frame-times _ _)))
                            | inr z ↦ rw z ran
                          ])
                ])
        ]
      ]

Keeps-answer_exit : (env : Env) (ch : ℤ) → Keeps true (answer_exit env ch)
unfolding answer_exit
Keeps-answer_exit env ch = elim (Bool-cases (is_key b'y' ch)) [
  | inl e ↦ rw e (
      Keeps-modify _ (λ w. record {
        device = refl;
        tab = refl;
        table = refl;
        count = refl;
        setup = refl;
        exit = λ h. absurd (cc);
        fault = λ h. refl;
      }))
  | inr e ↦ rw e (search (keeps, Keeps-redraw_main env))
]

Keeps-exit_program : (env : Env) → Keeps true (exit_program env)
unfolding exit_program
Keeps-exit_program env =
    search (keeps, Keeps-answer_exit, Keeps-mvwprintwc env, Keeps-winframe env) depth 20

pub Keeps-main_handle_input :
    (env : Env) (ch : ℤ) → Keeps (is_key b'q' ch) (main_handle_input env ch)
unfolding main_handle_input
Keeps-main_handle_input env ch = elim (Bool-cases (is_key b'q' ch)) [
  | inl e ↦ rw e (search (keeps, Keeps-exit_program, Keeps-helper_handler))
  | inr e ↦ rw e (search (keeps, Keeps-helper_handler))
]
