-- ===== src/Ui/Messages.antt =====
-- src/ui/MainWindow.cpp: the messages that reach the state of Ui/Window, as `WndProc` hands them on.
use winindex.Prelude.{ℕ, Option, List, [], ◌∷◌, WString}
use winindex.Indexing.Indexer.{IndexerStatus}
use winindex.Ui.Devices.{DeviceEvent}
use winindex.Ui.Results.{DisplayEntry, Sorter}
use winindex.Ui.Window.{
  Window, SearchOption, on_search_changed, on_timer, finish_search, results_arrive,
  on_indexer_status, on_column_click, toggle_option, on_device_change, on_arrow_key,
}

-- The messages of `WndProc` that change this state, and the end of the search thread.
pub data Message : Type 0 where
  typed : WString → Message
  timer_fires : List DisplayEntry → Message
  search_ends : List DisplayEntry → Message
  results_posted : Message
  status_posted : IndexerStatus → Message
  column_clicked : ℕ → Message
  option_toggled : SearchOption → List DisplayEntry → Message
  device_changed : DeviceEvent → Option ℕ → Message
  arrow_pressed : Message
  rows_selected : List ℕ → Message

unfoldable pub handle : Sorter → Message → Window → Window
unfolding on_search_changed on_timer finish_search results_arrive on_indexer_status on_column_click
    toggle_option on_device_change on_arrow_key
handle sort (typed text) w = on_search_changed (record w { text = text })
handle sort (timer_fires late) w = on_timer late w
handle sort (search_ends results) w = finish_search results w
handle sort results_posted w = results_arrive sort w
handle sort (status_posted status) w = on_indexer_status status w
handle sort (column_clicked col) w = on_column_click sort col w
handle sort (option_toggled o late) w = toggle_option late o w
handle sort (device_changed event mask) w = on_device_change event mask w
handle sort arrow_pressed w = on_arrow_key w
handle sort (rows_selected rows) w = record w { selection = rows }

unfoldable pub handle_all : Sorter → List Message → Window → Window
unfolding handle
handle_all sort [] w = w
handle_all sort (m ∷ ms) w = handle_all sort ms (handle sort m w)
