-- ===== src/UniqueId/Runs.antt =====
-- Concrete ids, and the theorems at them.
use sane_in_the_membrane.Common.{◌≡◌, refl, [], ◌∷◌}
use sane_in_the_membrane.UniqueId.{new_generator, ids}

-- The clock stands still and goes back.
three_ids : ids (7 ∷ 7 ∷ 6 ∷ []) 0x1ff new_generator ≡ 0x7000ff ∷ 0x7001ff ∷ 0x6002ff ∷ []
unfolding ids
three_ids = refl
