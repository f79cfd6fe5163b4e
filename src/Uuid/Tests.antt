-- ===== src/Uuid/Tests.antt =====
-- An id.
use msclaude_connector.Prelude.{◌≡◌, refl, [], ◌∷◌, codes}
use msclaude_connector.Uuid.{uuid, hex, set_byte}

zeros :
    uuid (0 ∷ 1 ∷ 2 ∷ 3 ∷ 4 ∷ 5 ∷ 255 ∷ 7 ∷ 8 ∷ 9 ∷ 10 ∷ 11 ∷ 12 ∷ 13 ∷ 14 ∷ 15 ∷ [])
    ≡ codes "00010203-0405-4f07-8809-0a0b0c0d0e0f"
unfolding uuid hex set_byte
zeros = refl
