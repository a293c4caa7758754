-- ===== src/Path/Tests.antt =====
-- The path of two names, "a" and "bc".
use bez_os.Prelude.{◌≡◌, refl, true, false, some, List, [], ◌∷◌, arith}
use bez_os.Path.{
  format_segments, Text, build_path_text, segments, segment_count, separator, verify_path_text,
  format,
}
use bez_os.Path.Verified.{AllAllowed, verified_names}
use bez_os.Path.Segments.{format-build, segments-build, segment_count-build, AllNames}

abbrev named_a : Text
named_a = b'a' ∷ []

abbrev named_bc : Text
named_bc = b'b' ∷ b'c' ∷ []

abbrev two_names : List Text
two_names = named_a ∷ named_bc ∷ []

two_names-AllNames : AllNames two_names
two_names-AllNames = (
  (λ e. ground (arith, e), (omega arith, tt)),
  ((λ e. ground (arith, e), (omega arith, (omega arith, tt))), tt),
)

segments-build_example : segments (build_path_text two_names) ≡ some two_names
segments-build_example = segments-build two_names two_names-AllNames

segment_count-build_example : segment_count (build_path_text two_names) ≡ 2
segment_count-build_example = segment_count-build two_names two_names-AllNames

-- A name may not be a dot, but a path of one segment may be.
dots :
    (verify_path_text (b'.' ∷ []) ≡ true)
    × (verify_path_text (b'a' ∷ separator ∷ b'.' ∷ []) ≡ false)
    × (verify_path_text (b'a' ∷ separator ∷ b'b' ∷ []) ≡ true)
unfolding verify_path_text
dots = (refl, refl, refl)

formatted : format (build_path_text two_names) ≡ some (b'/' ∷ b'a' ∷ b'/' ∷ b'b' ∷ b'c' ∷ [])
unfolding format_segments
formatted = format-build two_names two_names-AllNames

verified_names_example :
    (ss : List Text) × AllNames ss
    × AllAllowed ss
    × (build_path_text ss ≡ b'a' ∷ separator ∷ b'b' ∷ [])
    × (segments (b'a' ∷ separator ∷ b'b' ∷ []) ≡ some ss)
unfolding verify_path_text
verified_names_example = verified_names (b'a' ∷ separator ∷ b'b' ∷ []) refl
