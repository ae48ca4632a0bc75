-- ===== src/Examples/Listing.antt =====
-- src/ls.c on three entries.
use Prim.Native.Nat.{compare, lt, eq, gt}
use rmm.Base.{ℕ, ◌≡◌, arith, List, [], ◌∷◌}
use rmm.Ls.{Dnode, Strcmp, minus, nought, plus, negate}

-- A directory, and a file with its name and size.
abbrev pub folder : Dnode
folder = record {
  name = 97 ∷ [];
  st_mode = 0x41ed;
  st_size = 4096;
  st_atime = 0;
  st_ctime = 0;
  st_mtime = 0;
}

abbrev pub file : ℕ → ℕ → Dnode
file c size = record {
  name = c ∷ [];
  st_mode = 0x81a4;
  st_size = size;
  st_atime = 0;
  st_ctime = 0;
  st_mtime = 0;
}

-- Compares the first bytes.
abbrev first_byte : List ℕ → ℕ
first_byte [] = 0
first_byte (c ∷ _) = c

abbrev pub strcmp : Strcmp
strcmp s t = elim (compare (first_byte s) (first_byte t)) [ lt ↦ minus | eq ↦ nought | gt ↦ plus ]

pub strcmp-negate : (s t : List ℕ) → strcmp t s ≡ negate (strcmp s t)
strcmp-negate s t = ground arith
