-- ===== src/Pic/Remap.antt =====
-- What reaches the two interrupt controllers.
use frewozet.Base.{ℕ, ◌≡◌, refl, List, [], ◌∷◌, ◌==◌, if◌then◌else◌}
use frewozet.Terminal.{Terminal}
use frewozet.Pic.{pic1_command, pic1_data, pic2_command, pic2_data, pic_remap}

-- What was written to one port, newest first.
abbrev pub written_to : ℕ → List (ℕ × ℕ) → List ℕ
written_to port [] = []
written_to port ((p, v) ∷ ports) =
    let rest = written_to port ports in if p == port then v ∷ rest else rest

-- `pic_remap` starts each controller anew, gives it its offset, its wiring and the 8086 mode, and
-- leaves it the mask that it had.
pub pic_remap-keeps_masks :
    (inb : ℕ → ℕ) (offset1 offset2 : ℕ) (t : Terminal)
    → let ports = (pic_remap inb offset1 offset2 t).ports in
      (written_to pic1_command ports ≡ 0x11 ∷ written_to pic1_command t.ports)
      × (written_to pic2_command ports ≡ 0x11 ∷ written_to pic2_command t.ports)
      × (written_to pic1_data ports
          ≡ inb pic1_data ∷ 0x01 ∷ 0x04 ∷ offset1 ∷ written_to pic1_data t.ports)
      × (written_to pic2_data ports
          ≡ inb pic2_data ∷ 0x01 ∷ 0x02 ∷ offset2 ∷ written_to pic2_data t.ports)
unfolding pic_remap
pic_remap-keeps_masks inb offset1 offset2 t = (refl, refl, refl, refl)
