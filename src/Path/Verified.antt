-- ===== src/Path/Verified.antt =====
-- What `VerifyPathText` guarantees to the code behind it.
use bez_os.Prelude.{
  ◌==◌, Bool-cases, ℕ, ◌≡◌, refl, sym, ap, ap₂, ◌∙◌, inl, inr, true, false, ◌||◌, some, List, [],
  ◌∷◌, ◌++◌, arith,
}
use bez_os.Path.{
  Text, separator, first_is, last_is, has_double_separator, has_invalid_char, verify_path_text,
  build_path_text, segments, add_segments, walk,
}
use bez_os.Path.Segments.{build-tails, segments-build, AllNames, tails}

-- A text whose separators stand alone and inside is names with separators between them.
names_between :
    (c : ℕ) (t : Text)
    → first_is (c ∷ t) separator ≡ false
    → last_is (c ∷ t) separator ≡ false
    → has_double_separator (c ∷ t) ≡ false
    → (s : Text) × (ss : List Text) × AllNames (s ∷ ss) × (c ∷ t ≡ s ++ tails ss)
unfolding first_is last_is has_double_separator
names_between c [] first last double =
    (c ∷ [], [], (((λ e. ground (arith, e)), (ground arith, tt)), tt), refl)
names_between c (d ∷ []) first last double = elim (Bool-cases (d == separator)) [
  | inl sep ↦ absurd (ground arith)
  | inr inner ↦
      ((c ∷ d ∷ []), [], (((λ e. ground (arith, e)), (ground arith, (ground arith, tt))), tt), refl)
]
names_between c (d ∷ e ∷ t) first last double = elim (Bool-cases (d == separator)) [
  | inl sep ↦
      let (s, ss, names, joined) = names_between e t (ground arith) last (ground arith) in
      (
        c ∷ [],
        s ∷ ss,
        (((λ e. ground (arith, e)), (ground arith, tt)), names),
        (let same : d ≡ separator = ground arith in ap₂ (λ x u. c ∷ x ∷ u) same joined),
      )
  | inr inner ↦
      let (s, ss, names, joined) = names_between d (e ∷ t) (ground arith) last (ground arith) in
      (
        c ∷ s,
        ss,
        (((λ e. ground (arith, e)), (ground arith, names.0.1)), names.1),
        ap (λ u. c ∷ u) joined,
      )
]

-- No segment has a character that a name may not have.
abbrev pub AllAllowed : List Text → Type 0
AllAllowed [] = Unit
AllAllowed (s ∷ ss) = (has_invalid_char s ≡ false) × AllAllowed ss

invalid-append :
    (s t : Text) → has_invalid_char (s ++ t) ≡ (has_invalid_char s || has_invalid_char t)
unfolding has_invalid_char
invalid-append [] t = refl
invalid-append (c ∷ cs) t = ground (arith, invalid-append cs t)

allowed-tails :
    (s : Text) (ss : List Text) → has_invalid_char (s ++ tails ss) ≡ false → AllAllowed (s ∷ ss)
unfolding has_invalid_char
allowed-tails s [] h = (ground (arith, invalid-append s []), tt)
allowed-tails s (t ∷ ss) h =
    let e = invalid-append s (tails (t ∷ ss)) in (ground arith, allowed-tails t ss (ground arith))

-- The checks that a text that is not empty has passed.
passed :
    (c : ℕ) (t : Text)
    → verify_path_text (c ∷ t) ≡ true
    → (first_is (c ∷ t) separator ≡ false)
      × (last_is (c ∷ t) separator ≡ false)
      × (has_double_separator (c ∷ t) ≡ false)
      × (has_invalid_char (c ∷ t) ≡ false)
unfolding verify_path_text
passed c t h = ground arith

-- A text that `VerifyPathText` accepts is exactly what building a path from some names gives: none of
-- them is empty or has a separator or a forbidden character. The iteration over the path sees these
-- names.
pub verified_names :
    (t : Text)
    → verify_path_text t ≡ true
    → (ss : List Text) × AllNames ss
      × AllAllowed ss
      × (build_path_text ss ≡ t)
      × (segments t ≡ some ss)
unfolding build_path_text add_segments segments walk
verified_names [] h = ([], tt, tt, refl, refl)
verified_names (c ∷ t) h =
    let (first, last, double, valid) = passed c t h in
    let (s, ss, names, joined) = names_between c t first last double in
    let built : build_path_text (s ∷ ss) ≡ c ∷ t = build-tails s ss names.0.0 ∙ sym joined in
    (
      s ∷ ss,
      names,
      allowed-tails s ss (rw joined at valid),
      built,
      rw built at (segments-build (s ∷ ss) names),
    )
