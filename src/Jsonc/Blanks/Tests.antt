-- ===== src/Jsonc/Blanks/Tests.antt =====
-- A text with a line comment, a block comment and a trailing comma.
use awoki.Base.{◌≡◌, refl, some, is_space}
use awoki.Jsonc.{advance, strip_comments, closes, strip_commas, strip_jsonc}
use awoki.Jsonc.Blanks.{AllBlanked, strip_jsonc-AllBlanked}

strips : strip_jsonc "[1/*,*/2, ] // x" ≡ some "[1     2  ]     "
unfolding strip_jsonc strip_comments advance strip_commas closes is_space
strips = refl

strip_jsonc-AllBlanked_example : AllBlanked "[1/*,*/2, ] // x" "[1     2  ]     "
strip_jsonc-AllBlanked_example = strip_jsonc-AllBlanked "[1/*,*/2, ] // x" "[1     2  ]     " strips
