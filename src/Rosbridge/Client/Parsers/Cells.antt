-- ===== src/Rosbridge/Client/Parsers/Cells.antt =====
-- The cells of an occupancy grid.
use rom_go_app.Prelude.{ℕ, ◌-◌, ◌%◌, ◌≤◌, ◌<◌, ◌≡◌, arith, negsuc, int_mod, int_value, int8_value}
use rom_go_app.Rosbridge.Client.Parsers.{to_cell}

-- The test and the subtraction of 256 change nothing: the conversion to `int8` wraps all the same.
pub to_cell-mod : (v : ℕ) → v < int_mod → to_cell v ≡ v % 256
unfolding to_cell
to_cell-mod v h = ground arith

-- The value of a cell as an `int8`: an `int` from 0 to 127 stays as it is, one from 128 to 255 is
-- read as a byte, 256 less, and one from -128 to -1 stays as it is.
pub to_cell_value :
    (v : ℕ)
    → v < int_mod
    → (v < 128 → int8_value (to_cell v) ≡ int_value v)
      × (128 ≤ v → v < 256 → int8_value (to_cell v) ≡ negsuc (255 - v))
      × (int_mod - 128 ≤ v → int8_value (to_cell v) ≡ int_value v)
to_cell_value v h = (
  λ small. rw (to_cell-mod v h) (ground arith),
  λ low high. rw (to_cell-mod v h) (ground arith),
  λ neg. rw (to_cell-mod v h) (ground arith),
)
