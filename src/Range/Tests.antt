-- ===== src/Range/Tests.antt =====
-- Ranges around [16, 48).
use bez_os.Prelude.{◌<◌, ◌≡◌, ◌↔◌, true, arith}
use bez_os.Range.{Range, range, intersects}
use bez_os.Range.Meet.{intersects_iff}

abbrev page : Range
page = range 16 48

intersects_iff_example :
    (intersects page (range 0 64) ≡ true) ↔ (((16 < 64) × (0 < 48)) × ¬ ((0 < 16) × (48 < 64)))
intersects_iff_example = intersects_iff page (range 0 64) (omega arith) (omega arith)
