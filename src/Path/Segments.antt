-- ===== src/Path/Segments.antt =====
-- What is built from segments comes apart into them again.
use bez_os.Prelude.{
  ◌>>=◌, length, length-append, ℕ, zero, suc, ◌≤◌, ◌<◌, ◌≡◌, refl, ◌≢◌, false, none, some, List, [],
  ◌∷◌, ◌++◌, arith, append-nil, append_assoc,
}
use bez_os.Path.{
  Text, separator, add_segments, build_path_text, segment, next_segment, walk, advance, segments,
  count_separators, is_nil, segment_count, format, find_last, parent, format_segments, name,
}

-- A name: not empty, without a separator.
abbrev pub IsFree : Text → Type 0
IsFree [] = Unit
IsFree (c ∷ cs) = (c ≢ separator) × IsFree cs

abbrev pub IsName : Text → Type 0
IsName s = (s ≢ []) × IsFree s

abbrev pub AllNames : List Text → Type 0
AllNames [] = Unit
AllNames (s ∷ ss) = IsName s × AllNames ss

-- The segments, each behind a separator.
abbrev pub tails : List Text → Text
tails [] = []
tails (s ∷ ss) = separator ∷ (s ++ tails ss)

add_segments-tails :
    (c : ℕ) (p : Text) (ss : List Text) → add_segments (c ∷ p) ss ≡ c ∷ (p ++ tails ss)
unfolding add_segments
add_segments-tails c p [] = rw append-nil
add_segments-tails c p (s ∷ ss) =
    rw (add_segments-tails c ((p ++ (separator ∷ [])) ++ s) ss) (simp append_assoc)

pub build-tails : (s : Text) (ss : List Text) → s ≢ [] → build_path_text (s ∷ ss) ≡ s ++ tails ss
unfolding build_path_text add_segments
build-tails [] ss h = absurd (h refl)
build-tails (c ∷ cs) ss h = add_segments-tails c cs ss

segment-tails : (s : Text) (ss : List Text) → IsFree s → segment (s ++ tails ss) ≡ s
unfolding segment
segment-tails [] [] h = refl
segment-tails [] (s ∷ ss) h = refl
segment-tails (c ∷ cs) ss h = ground (arith, segment-tails cs ss h.1)

next_segment-tails :
    (s : Text) (ss : List Text) → IsFree s → next_segment (s ++ tails ss) ≡ tails ss
unfolding next_segment
next_segment-tails [] [] h = refl
next_segment-tails [] (s ∷ ss) h = refl
next_segment-tails (c ∷ cs) ss h = ground (arith, next_segment-tails cs ss h.1)

advance-tails_nil : (s : Text) → IsFree s → advance (s ++ tails []) ≡ []
unfolding advance
advance-tails_nil s h = rw (next_segment-tails s [] h, advance)

advance-tails_cons :
    (s t : Text) (ss : List Text) → IsFree s → advance (s ++ tails (t ∷ ss)) ≡ t ++ tails ss
unfolding advance
advance-tails_cons s t ss h = rw (next_segment-tails s (t ∷ ss) h, advance)

length-tails_lt :
    (s t : Text) (ss : List Text) → length (t ++ tails ss) < length (s ++ tails (t ∷ ss))
length-tails_lt s t ss = omega (arith, length-append {0} s (tails (t ∷ ss)))

walk-tails :
    (n : ℕ) (s : Text) (ss : List Text)
    → AllNames (s ∷ ss)
    → length (s ++ tails ss) ≤ n
    → walk n (s ++ tails ss) ≡ some (s ∷ ss)
unfolding walk
walk-tails n [] ss h le = absurd (h.0.0 refl)
walk-tails zero (c ∷ cs) ss h le = absurd (omega arith)
walk-tails (suc n) (c ∷ cs) [] h le =
    rw (advance-tails_nil (c ∷ cs) h.0.1, segment-tails (c ∷ cs) [] h.0.1) (walk_nil n (c ∷ cs))
  where
    walk_nil : (n : ℕ) (s : Text) → (walk n [] >>= λ rest. some (s ∷ rest)) ≡ some (s ∷ [])
    walk_nil zero s = refl
    walk_nil (suc n) s = refl
walk-tails (suc n) (c ∷ cs) (t ∷ ss) h le = rw (
  advance-tails_cons (c ∷ cs) t ss h.0.1,
  segment-tails (c ∷ cs) (t ∷ ss) h.0.1,
  walk-tails n t ss h.1 (omega (arith, length-tails_lt (c ∷ cs) t ss)),
)

-- The iteration over a path built from names, none of them empty or with a separator inside, gives
-- those names back in order, and comes to its end.
pub segments-build : (ss : List Text) → AllNames ss → segments (build_path_text ss) ≡ some ss
unfolding segments build_path_text add_segments walk
segments-build [] h = refl
segments-build (s ∷ ss) h =
    rw (build-tails s ss h.0.0) (walk-tails (length (s ++ tails ss)) s ss h (omega arith))

count_free : (s t : Text) → IsFree s → count_separators (s ++ t) ≡ count_separators t
unfolding count_separators
count_free [] t h = refl
count_free (c ∷ cs) t h = ground (arith, count_free cs t h.1)

count-tails : (ss : List Text) → AllNames ss → count_separators (tails ss) ≡ length ss
unfolding count_separators
count-tails [] h = refl
count-tails (s ∷ ss) h = omega (arith, count_free s (tails ss) h.0.1, count-tails ss h.1)

is_nil-append : (s t : Text) → s ≢ [] → is_nil (s ++ t) ≡ false
is_nil-append [] t h = absurd (h refl)
is_nil-append (c ∷ cs) t h = refl

-- `segmentCount` of a path built from names is their number.
pub segment_count-build :
    (ss : List Text) → AllNames ss → segment_count (build_path_text ss) ≡ length ss
unfolding segment_count build_path_text add_segments
segment_count-build [] h = refl
segment_count-build (s ∷ ss) h =
    rw
      (
        build-tails s ss h.0.0,
        is_nil-append s (tails ss) h.0.0,
        count_free s (tails ss) h.0.1,
        count-tails ss h.1,
      )
      (omega arith)

-- The formatter writes a slash before each segment.
pub format-build :
    (ss : List Text) → AllNames ss → format (build_path_text ss) ≡ some (format_segments ss)
unfolding format
format-build ss h = rw (segments-build ss h)

find_last_free : (s : Text) → IsFree s → find_last s ≡ (s, none)
unfolding find_last
find_last_free [] h = refl
find_last_free (c ∷ cs) h = ground (arith, find_last_free cs h.1)

find_last-append : (p s : Text) → IsFree s → find_last (p ++ (separator ∷ s)) ≡ (p, some s)
unfolding find_last
find_last-append [] s h = rw (find_last_free s h, find_last)
find_last-append (c ∷ cs) s h = ground (arith, find_last-append cs s h)

-- Of a path with a name put behind a directory, `parent` gives the directory and `name` the name.
parent-name_build :
    (p s : Text)
    → p ≢ []
    → IsFree s
    → (parent (build_path_text (p ∷ s ∷ [])) ≡ p) × (name (build_path_text (p ∷ s ∷ [])) ≡ s)
unfolding parent name
parent-name_build p s h free =
    let e : find_last (build_path_text (p ∷ s ∷ [])) ≡ (p, some s) =
      rw (build-tails p (s ∷ []) h, append-nil) (find_last-append p s free) in
    rw (e, parent, name) (refl, refl)

-- A path of a single segment is its own parent: `parent` never gives the root.
pub parent_single : (s : Text) → IsFree s → (parent s ≡ s) × (name s ≡ s)
unfolding parent name
parent_single s h = rw (find_last_free s h, parent, name) (refl, refl)
