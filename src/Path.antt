-- ===== src/Path.antt =====
-- sources/kernel/src/fs/path.cpp and sources/kernel/include/fs/path.hpp: paths of the virtual file
-- system. A path is a text of bytes; its segments stand between separators, and the separator is the
-- byte 0. The place of an iterator is the text that is left in front of it.
pub mod Tests
pub mod Segments
pub mod Verified
use bez_os.Prelude.{
  leb, ◌==◌, if◌then◌else◌, ◌>>=◌, length, drop, ℕ, zero, suc, ◌+◌, ◌-◌, Bool, true, false, ◌&&◌,
  ◌||◌, not, Option, none, some, List, [], ◌∷◌, ◌++◌,
}

-- OS_PATH_SEPARATOR
abbrev pub separator : ℕ
separator = 0

abbrev pub Text : Type 0
Text = List ℕ

abbrev pub is_nil {ℓ} : {A : Type ℓ} → List A → Bool
is_nil [] = true
is_nil (x ∷ xs) = false

-- `nextSegment`: the iterator at the next separator, or at the end.
pub next_segment : Text → Text
next_segment [] = []
next_segment (c ∷ cs) = if c == separator then c ∷ cs else next_segment cs

-- `segment`: the text up to there.
pub segment : Text → Text
segment [] = []
segment (c ∷ cs) = if c == separator then [] else c ∷ segment cs

-- `operator++`
pub advance : Text → Text
advance t = elim (next_segment t) [ [] ↦ [] | c ∷ rest ↦ rest ]

-- The loop `for (segment : path)`, on fuel: the segments that it sees, or nothing if the fuel ran out.
pub walk : ℕ → Text → Option (List Text)
walk fuel [] = some []
walk zero (c ∷ cs) = none
walk (suc fuel) (c ∷ cs) = walk fuel (advance (c ∷ cs)) >>= λ rest. some (segment (c ∷ cs) ∷ rest)

-- Every step of the iterator moves on, so a round for each byte is enough.
pub segments : Text → Option (List Text)
segments t = walk (length t) t

pub count_separators : Text → ℕ
count_separators [] = 0
count_separators (c ∷ cs) = (if c == separator then 1 else 0) + count_separators cs

pub segment_count : Text → ℕ
segment_count t = if is_nil t then 0 else count_separators t + 1

-- `std::ranges::find_last` of the separator: what is before it and what follows it. If there is none,
-- it gives the empty range at the end.
pub find_last : Text → Text × Option Text
find_last [] = ([], none)
find_last (c ∷ cs) =
    let (before, after) = find_last cs in
    elim after [
      | some t ↦ (c ∷ before, some t)
      | none ↦ if c == separator then ([], some cs) else (c ∷ before, none)
    ]

pub parent : Text → Text
parent t = (find_last t).0

pub name : Text → Text
name t = elim (find_last t).1 [ none ↦ t | some tail ↦ tail ]

-- `detail::BuildPathText`, with the path so far.
pub add_segments : Text → List Text → Text
add_segments path [] = path
add_segments path (s ∷ ss) =
    add_segments (if not (is_nil path) then (path ++ (separator ∷ [])) ++ s else path ++ s) ss

pub build_path_text : List Text → Text
build_path_text = add_segments []

-- `PathFormat::format`
pub format_segments : List Text → Text
format_segments [] = []
format_segments (s ∷ ss) = b'/' ∷ s ++ format_segments ss

pub format : Text → Option Text
format t = segments t >>= λ ss. some (format_segments ss)

-- The text views' tests.
pub starts_with : Text → Text → Bool
starts_with t [] = true
starts_with [] (p ∷ ps) = false
starts_with (c ∷ cs) (p ∷ ps) = c == p && starts_with cs ps

pub ends_with : Text → Text → Bool
unfolding starts_with
ends_with t p = leb (length p) (length t) && starts_with (drop (length t - length p) t) p

pub contains_subrange : Text → Text → Bool
unfolding starts_with
contains_subrange [] p = starts_with [] p
contains_subrange (c ∷ cs) p = starts_with (c ∷ cs) p || contains_subrange cs p

pub last_is : Text → ℕ → Bool
last_is [] x = false
last_is (c ∷ []) x = c == x
last_is (c ∷ d ∷ cs) x = last_is (d ∷ cs) x

pub first_is : Text → ℕ → Bool
first_is [] x = false
first_is (c ∷ cs) x = c == x

pub has_double_separator : Text → Bool
has_double_separator [] = false
has_double_separator (c ∷ []) = false
has_double_separator (c ∷ d ∷ cs) =
    (c == separator && d == separator) || has_double_separator (d ∷ cs)

-- kPathInvalidChars
abbrev pub is_invalid_char : ℕ → Bool
is_invalid_char c = c == b'/' || c == b'\\'

pub has_invalid_char : Text → Bool
has_invalid_char [] = false
has_invalid_char (c ∷ cs) = (not (c == separator) && is_invalid_char c) || has_invalid_char cs

pub verify_path_text : Text → Bool
unfolding first_is last_is has_double_separator starts_with ends_with contains_subrange
    has_invalid_char
verify_path_text t =
    if is_nil t
    then true
    else if first_is t separator || last_is t separator
    then false
    else if has_double_separator t
    then false
    else if starts_with t (b'.' ∷ 0 ∷ []) || ends_with t (0 ∷ b'.' ∷ [])
    then false
    else if contains_subrange t (0 ∷ b'.' ∷ 0 ∷ [])
    then false
    else not (has_invalid_char t)
