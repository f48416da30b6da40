-- ===== src/Lib.antt =====
-- A model of winindex, a file search tool for Windows: the index of file names and paths, its
-- file on disk, the search, the indexer that fills it, and the settings and the log.
--
-- Storage models src/core/storage. Storage/Pool is IndexPool (IndexPool.cpp): a list of records
-- over one pool of paths and one of lowercased names, with the casts to 32 and 16 bits written
-- out, and `none` for a view outside a pool. Storage/Store is IndexStore (IndexStore.cpp), whose
-- mutations set tombstones and append; Storage/Store/Spec is the abstract index, a list of
-- entries without offsets and tombstones. Storage/Serializer is `Serialize`,
-- Storage/Serializer/Read is `Deserialize` (IndexSerializer.cpp), over bytes; Storage/Persist is
-- `Load` and `Save` over the bytes of the file.
--
-- Search models src/core/search. Search/Simd is SimdSearch.cpp and SimdSearchAvx2.cpp with the
-- masks as lists of bits, Search/Tokens is TokenMatcher.cpp, Search/Workers is the parallel loop
-- of SearchEngine.cpp as a state machine whose schedule says which thread makes the next step and
-- when the caller cancels, and Search/Engine is what one entry has to match and `Search` itself,
-- which reads the pool of Storage/Pool.
--
-- Indexing/Indexer models src/core/indexer/Indexer.cpp, which drives the store, and
-- Indexing/Indexer/Threads the bodies of its threads: an indexing run, the addition and removal
-- of roots, the events of the watchers. The scanners are an interface (IFileSystemScanner.h) that
-- it takes as a record; Indexing/Scanners puts the breadth-first scanner behind it.
-- Indexing/FindFile is FindFileScanner.cpp, Indexing/Mft is MftScanner.cpp, Indexing/Journal is
-- UsnJournalMonitor.cpp, Indexing/Watcher is ChangeWatcher.cpp and Indexing/Drives is
-- DriveEnumerator.cpp. Indexing/Lifecycle is Indexer.cpp once more, with the threads as places in
-- their bodies under any order of their steps and of the calls, from the constructor to the
-- destructor (Indexing/Lifecycle/Whole); Indexing/Indexer/Messages is what a scan reports. What a
-- directory, a volume's table, its journal, a wait and a drive give is an argument of each.
--
-- Ui models src/ui. Ui/Results is what the list of MainWindow.cpp is given by a search of
-- Search/Engine over the pool of Storage/Pool, and its sorting; Ui/Window is the state behind the
-- search bar, the list and the status bar, with one function per handler, and Ui/Messages is
-- `WndProc`; Ui/SearchThread is the search thread with the lock that it shares with the calls of
-- the indexer on Storage/Store; Ui/Rows is the text of the rows and what the selected ones are
-- used for, with the clipboard in Ui/Rows/Clipboard, Ui/Commands is `OnCommand`, Ui/Devices is
-- `OnDeviceChange`, Ui/Drag is the data object of a drag and Ui/Drag/Source its source, and
-- Ui/Dialogs is SettingsDialog.cpp and FirstRunDialog.cpp, which change the settings of
-- Config/Settings, with Ui/Dialogs/Procs their procedures over what the user does; Ui/Startup is
-- the start of the settings in `OnCreate`, Ui/Controls is `InitControls` and `OnSize`, Ui/Ids is
-- resource.h, and Ui/Lifetime is main.cpp with the window from WM_CREATE to WM_DESTROY.
--
-- Config models src/core/settings: Config/Settings is Settings.cpp, Config/Logger is Logger.cpp,
-- Config/Format the formatted texts of PathUtils.cpp and Config/Paths its directories. Prelude
-- has the shared lists, texts and tests.
--
-- A wchar_t is a number below 2^16 and a text a list of them. The C library's `towlower`,
-- `towupper` and `iswalnum`, RE2, the conversion to UTF-8, the processor's features, the file
-- system and the INI file are parameters. The fuel of the block search is the length of the text
-- and that of the mask loop the number of bits; each round takes a block or two bits, so neither
-- runs out. Twenty digits are enough for every number of 64 bits, and the comma loop has a round
-- for each digit.
--
-- The loops of the scanners and of the journal run on fuel with `none` for a loop that has not
-- ended. For a breadth-first scan the size of the largest subtree is enough, for a path the depth
-- of the entry, for a replay one more than the records, and for the monitoring the rounds up to
-- the stop. The steps of an indexer thread need no fuel; how many are enough is stated by its
-- theorems.
--
-- Not modelled: the calls that create and paint windows (src/ui), the About box; memory that
-- cannot be allocated in the handlers; the order in which the statuses of several scan threads
-- mix; thread handles; failures to write a file.
pub mod Prelude
pub mod Storage
pub mod Search
pub mod Config
pub mod Indexing
pub mod Ui
pub mod Tests
