-- ===== src/Common/Bytes/Marks.antt =====
-- Blocks as sets of bytes, and the shadow byte that says whether a byte is in one.
use misan.Prelude.{ℕ, ◌+◌, Bool, ◌&&◌, leb, ltb, if◌then◌else◌}

abbrev pub covers : ℕ → ℕ → ℕ → Bool
covers addr size x = leb addr x && ltb x (addr + size)

abbrev pub shadow_byte : Bool → ℕ
shadow_byte poisoned = if poisoned then 0xFF else 0
