-- ===== src/Ui/Devices.antt =====
-- src/ui/MainWindow.cpp: the texts of `OnDeviceChange`.
use winindex.Prelude.{
  ℕ, zero, suc, ◌+◌, ◌/◌, ◌%◌, ◌^◌, Option, none, some, [], ◌∷◌, ◌++◌, ◌==◌, if◌then◌else◌,
  is_empty, WString, codes,
}

-- The loop over the bits of `dbcv_unitmask`; `n` counts those that are left.
unfoldable pub drive_names : ℕ → ℕ → ℕ → WString → WString
drive_names mask zero i drives = drives
drive_names mask (suc n) i drives = drive_names mask n (suc i) (
    if mask / 2 ^ i % 2 == 1
    then (if is_empty drives then drives else drives ++ codes ", ") ++ ((b'A' + i) ∷ (b':' ∷ []))
    else drives)

pub data DeviceEvent : Type 0 where
  arrival removal other_event : DeviceEvent

-- The line for the log and the text of the status bar, where the event is one of a volume, whose
-- mask is given.
unfoldable pub device_texts : DeviceEvent → Option ℕ → Option (WString × WString)
unfolding drive_names
device_texts other_event mask = none
device_texts arrival none = none
device_texts removal none = none
device_texts arrival (some mask) =
    let drives = drive_names mask 26 0 [] in
    some (
      codes "Drive arrived: " ++ drives,
      codes "Drive " ++ (drives ++ codes " connected. Open Index > Settings to add it."),
    )
device_texts removal (some mask) =
    let drives = drive_names mask 26 0 [] in
    some (codes "Drive removed: " ++ drives, codes "Drive " ++ (drives ++ codes " disconnected."))
