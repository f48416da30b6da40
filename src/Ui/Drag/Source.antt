-- ===== src/Ui/Drag/Source.antt =====
-- src/ui/MainWindow.cpp: the source of a drag, and the objects of a drag from `OnBeginDrag` to its
-- end. What OLE calls on them during DoDragDrop is an argument.
use winindex.Prelude.{
  ℕ, zero, suc, ◌+◌, ◌-◌, ◌≡◌, Bool, true, false, ◌||◌, List, [], ◌∷◌, ◌==◌, WString,
}
use winindex.Ui.Drag.{
  Hresult, s_ok, e_nointerface, dragdrop_s_usedefaultcursors, DropDataObject, new_drop_data_object,
  add_ref, release,
}

pub record DropSource : Type 0 where
  pub refs : ℕ
  pub freed : Bool

abbrev pub new_drop_source : DropSource
new_drop_source = record { refs = 1; freed = false }

unfoldable pub add_source_ref : DropSource → DropSource × ℕ
add_source_ref src = (record src { refs = src.refs + 1 }, src.refs + 1)

unfoldable pub release_source : DropSource → DropSource × ℕ
release_source src = let r = src.refs - 1 in (record { refs = r; freed = src.freed || (r == 0) }, r)

-- `known` is whether the interface asked for is one of the two that the source has.
unfoldable pub query_source_interface : Bool → DropSource → DropSource × Hresult
unfolding add_source_ref
query_source_interface true src = ((add_source_ref src).0, s_ok)
query_source_interface false src = (src, e_nointerface)

unfoldable pub give_feedback : Hresult
give_feedback = dragdrop_s_usedefaultcursors

-- The calls of OLE and of the target, which hold references of their own.
pub data DragCall : Type 0 where
  refers_to_object releases_object refers_to_source releases_source : DragCall

-- The objects while DoDragDrop runs.
pub record Drag : Type 0 where
  pub object : DropDataObject
  pub source : DropSource

unfoldable pub drag_call : DragCall → Drag → Drag
unfolding add_ref release add_source_ref release_source
drag_call refers_to_object d = record d { object = (add_ref d.object).0 }
drag_call releases_object d = record d { object = (release d.object).0 }
drag_call refers_to_source d = record d { source = (add_source_ref d.source).0 }
drag_call releases_source d = record d { source = (release_source d.source).0 }

unfoldable pub do_drag_drop : List DragCall → Drag → Drag
unfolding drag_call
do_drag_drop [] d = d
do_drag_drop (c ∷ cs) d = do_drag_drop cs (drag_call c d)

abbrev pub new_drag : WString → Drag
new_drag paths = record { object = new_drop_data_object paths; source = new_drop_source }

-- The end of `OnBeginDrag`, with both of its own references given up.
unfoldable pub drag_paths : WString → List DragCall → Drag
unfolding do_drag_drop release release_source
drag_paths paths calls =
    let d = do_drag_drop calls (new_drag paths) in
    record { object = (release d.object).0; source = (release_source d.source).0 }

-- Every call releases a reference that was taken before, with `n` of the object and `m` of the
-- source held at the start, and `n'` and `m'` at the end.
abbrev pub Holds : ℕ → ℕ → List DragCall → ℕ → ℕ → Type 0
Holds n m [] n' m' = (n ≡ n') × (m ≡ m')
Holds n m (refers_to_object ∷ cs) n' m' = Holds (suc n) m cs n' m'
Holds zero m (releases_object ∷ cs) n' m' = ⊥
Holds (suc n) m (releases_object ∷ cs) n' m' = Holds n m cs n' m'
Holds n m (refers_to_source ∷ cs) n' m' = Holds n (suc m) cs n' m'
Holds n zero (releases_source ∷ cs) n' m' = ⊥
Holds n (suc m) (releases_source ∷ cs) n' m' = Holds n m cs n' m'

-- The objects are there, with one reference more than OLE holds.
abbrev Alive : ℕ → ℕ → Drag → Type 0
Alive n m d =
    (d.object.refs ≡ suc n)
    × (d.object.freed ≡ false)
    × ((d.source.refs ≡ suc m) × (d.source.freed ≡ false))
