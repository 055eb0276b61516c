-- ===== src/Heap/Tests.antt =====
-- Three blocks, one of them free.
use frewozet.Base.{◌≡◌, refl, true, false, [], ◌∷◌, List, some}
use frewozet.Heap.{Block, program, find_free_block, take_block, split_block}
use frewozet.Heap.Tiles.{Tiles}

abbrev three : List Block
three =
    record { addr = 1000; size = 32; free = false }
    ∷ record { addr = 1044; size = 16; free = true }
    ∷ record { addr = 1072; size = 100; free = true }
    ∷ []

three-Tiles : Tiles 1000 three 1184
three-Tiles = (refl, (refl, (refl, refl)))

three-found : find_free_block 32 three ≡ some 1072
unfolding program
three-found = refl

three-split :
    take_block 1072 (split_block 1072 32 three)
    ≡ record { addr = 1000; size = 32; free = false }
      ∷ record { addr = 1044; size = 16; free = true }
      ∷ record { addr = 1072; size = 32; free = false }
      ∷ record { addr = 1116; size = 56; free = true }
      ∷ []
unfolding program
three-split = refl
