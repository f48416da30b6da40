-- ===== src/Ui/Lifetime.antt =====
-- src/ui/MainWindow.cpp, src/ui/main.cpp: the life of the window, from `wWinMain` to WM_DESTROY.
use winindex.Prelude.{
  ℕ, ◌≡◌, refl, Bool, true, false, not, ◌&&◌, Option, none, some, List, [], ◌∷◌, if◌then◌else◌,
  if_cases, arith,
}
use winindex.Search.Engine.{SearchOptions}
use winindex.Ui.Results.{Sorter}
use winindex.Ui.Results.Order.{Sorts}
use winindex.Ui.Window.{Window, on_search_bar, update_menu_checkmarks}
use winindex.Ui.Messages.{Message, handle}
use winindex.Ui.Window.Rows.{IsConsistent, handle-IsConsistent}
use winindex.Ui.Controls.{columns, init_controls}

-- `window` is the MainWindow behind GWLP_USERDATA; `notifies` whether the notification of devices is
-- registered, and `quits` whether WM_QUIT is posted.
pub record Process : Type 0 where
  pub window : Option Window
  pub notifies : Bool
  pub quits : Bool

pub data WindowMessage : Type 0 where
  wm_other : Message → WindowMessage
  wm_set_focus wm_destroy : WindowMessage

abbrev pub to_window : Sorter → Message → Option Window → Option Window
to_window sort m none = none
to_window sort m (some w) = some (handle sort m w)

abbrev pub refocused : Option Window → Option Window
refocused none = none
refocused (some w) = some (record w { focus = on_search_bar })

-- The destructor unregisters the notification, cancels the search and waits for its thread.
abbrev pub destroyed : Process → Process
destroyed p = record p { window = none; notifies = false }

-- WM_DESTROY
abbrev pub on_wm_destroy : Process → Process
on_wm_destroy p = record (destroyed p) { quits = true }

unfoldable pub wnd_proc : Sorter → WindowMessage → Process → Process
wnd_proc sort (wm_other m) p = record p { window = to_window sort m p.window }
wnd_proc sort wm_set_focus p = record p { window = refocused p.window }
wnd_proc sort wm_destroy p = on_wm_destroy p

-- The message loop, which leaves the messages behind WM_QUIT.
unfoldable pub message_loop : Sorter → List WindowMessage → Process → Process
unfolding wnd_proc
message_loop sort [] p = p
message_loop sort (m ∷ ms) p =
    let rest = message_loop sort ms (wnd_proc sort m p) in if p.quits then p else rest

-- WM_CREATE; `notified` is whether the notification of devices can be registered.
unfoldable pub on_wm_create : Bool → SearchOptions → Process
unfolding init_controls update_menu_checkmarks
on_wm_create notified opts = record {
  window = some (update_menu_checkmarks (init_controls opts));
  notifies = notified;
  quits = false;
}

abbrev exit_code : Bool → Option ℕ
exit_code quit = if quit then some 0 else none

-- Whether the class is registered and the window created; the exit code, if there is one yet, and
-- the process after the messages that have come.
unfoldable pub w_win_main :
    Bool → Bool → Bool → Sorter → SearchOptions → List WindowMessage → Option ℕ × Option Process
unfolding on_wm_create message_loop
w_win_main registered created notified sort opts ms =
    let p = message_loop sort ms (on_wm_create notified opts) in
    if not registered
    then (some 1, none)
    else if not created
    then (some 1, none)
    else (exit_code p.quits, some p)

abbrev pub is_there : Option Window → Bool
is_there none = false
is_there (some w) = true

abbrev pub AllConsistent : Option Window → Type 0
AllConsistent none = Unit
AllConsistent (some w) = IsConsistent w

-- A window that is there is consistent, and notified if that can be; one that is gone has left no
-- notification registered, and WM_QUIT is posted.
abbrev pub IsSound : Bool → Process → Type 0
IsSound notified p =
    AllConsistent p.window
    × (p.notifies ≡ (is_there p.window && notified))
    × (p.quits ≡ not (is_there p.window))

on_wm_create-IsSound :
    (notified : Bool) (opts : SearchOptions) → IsSound notified (on_wm_create notified opts)
unfolding on_wm_create init_controls columns
on_wm_create-IsSound notified opts =
    (record { rows = omega arith; order = tt; header_is = refl }, refl, refl)

code_of : (there quit : Bool) → quit ≡ not there → exit_code quit ≡ (if there then none else some 0)
code_of true quit e = rw e
code_of false quit e = rw e

-- How the program stands: it has given up with 1, or its window and its exit code fit together.
abbrev pub Runs : Bool → Option ℕ × Option Process → Type 0
Runs notified (code, none) = code ≡ some 1
Runs notified (code, some p) =
    IsSound notified p × (code ≡ (if is_there p.window then none else some 0))

module _ (sort : Sorter) (sorts : Sorts sort) where
  to_window-AllConsistent :
      (m : Message) (window : Option Window)
      → AllConsistent window
      → AllConsistent (to_window sort m window)
        × (is_there (to_window sort m window) ≡ is_there window)
  to_window-AllConsistent m none v = (tt, refl)
  to_window-AllConsistent m (some w) v = (handle-IsConsistent sort sorts m w v, refl)

  refocused-AllConsistent :
      (window : Option Window)
      → AllConsistent window
      → AllConsistent (refocused window) × (is_there (refocused window) ≡ is_there window)
  refocused-AllConsistent none v = (tt, refl)
  refocused-AllConsistent (some w) v =
      (record { rows = v.rows; order = v.order; header_is = v.header_is }, refl)

  wnd_proc-IsSound :
      (notified : Bool) (m : WindowMessage) (p : Process)
      → IsSound notified p
      → IsSound notified (wnd_proc sort m p)
  unfolding wnd_proc
  wnd_proc-IsSound notified (wm_other m) p (v, n, q) =
      let (v', same) = to_window-AllConsistent m p.window v in (v', rw same n, rw same q)
  wnd_proc-IsSound notified wm_set_focus p (v, n, q) =
      let (v', same) = refocused-AllConsistent p.window v in (v', rw same n, rw same q)
  wnd_proc-IsSound notified wm_destroy p s = (tt, refl, refl)

  message_loop-IsSound :
      (notified : Bool) (ms : List WindowMessage) (p : Process)
      → IsSound notified p
      → IsSound notified (message_loop sort ms p)
  unfolding message_loop
  message_loop-IsSound notified [] p s = s
  message_loop-IsSound notified (m ∷ ms) p s =
      if_cases (IsSound notified) p.quits p _ (λ quit. s)
        (λ _.
          message_loop-IsSound notified ms (wnd_proc sort m p) (wnd_proc-IsSound notified m p s))

  -- If std::sort keeps its promises for strict weak orders, then from the start of the program
  -- and after any sequence of messages either it gave up with exit code 1, or the window is there
  -- and there is no exit code, or the window is gone with its device notification unregistered
  -- and the exit code is 0. A window that is there has no more rows than results, and if a column
  -- is chosen, every row stands before those behind it by that column: name, path, size or time,
  -- from the smaller to the larger, or the other way where the direction is descending; the
  -- header has an arrow at the chosen column and at no other, down exactly where the direction is
  -- descending.
  pub w_win_main-Runs :
      (registered created notified : Bool) (opts : SearchOptions) (ms : List WindowMessage)
      → Runs notified (w_win_main registered created notified sort opts ms)
  unfolding w_win_main on_wm_create
  w_win_main-Runs false created notified opts ms = refl
  w_win_main-Runs true false notified opts ms = refl
  w_win_main-Runs true true notified opts ms =
      let s =
        message_loop-IsSound notified ms (on_wm_create notified opts)
          (on_wm_create-IsSound notified opts) in
      (s, code_of _ _ s.2)
