-- ===== src/StarBuzz/Tests.antt =====
-- The third order of the program.
use notes_coding.Base.{◌≡◌, refl}
use notes_coding.StarBuzz.{house_blend, mocha, soy, whip, get_description}

described : get_description (whip (mocha (soy house_blend))) ≡ "HouseBlend, Soy, Mocha, Whip"
unfolding get_description
described = refl
