-- ===== src/Uuid/RoundTrip.antt =====
-- What is printed is parsed, in every format.
use bez_os.Prelude.{
  ltb, leb, ◌==◌, if◌then◌else◌, Bool-cases, ℕ, ◌+◌, ◌*◌, ◌/◌, ◌%◌, ◌<◌, ◌≡◌, refl, ◌∙◌, inl, inr,
  false, ◌&&◌, Option, some, arith,
}
use bez_os.Prelude.Store.{Every-at}
use bez_os.Uuid.{
  hex_digit, Bytes, strfuid, parse, read_octets, nil, write_octets, hex_digit, parse_any,
  parse_microsoft,
}
use bez_os.Uuid.Digits.{Shows, read_octets_lem}

-- The place of an octet's digits in the text with hyphens.
abbrev pub text_place : ℕ → ℕ
text_place i =
    i * 2
    + (if ltb i 4
        then 0
        else if ltb i 6
        then 1
        else if ltb i 8
        then 2
        else if ltb i 10
        then 3
        else 4)

-- A text in the format with hyphens for the given octets.
pub record IsText (str octets : Bytes) : Type 0 where
  pub digits : (i : ℕ) → i < 16 → Shows str (text_place i) (octets i)
  pub hyphens : (str 8 ≡ b'-') × (str 13 ≡ b'-') × (str 18 ≡ b'-') × (str 23 ≡ b'-')

-- One group of octets out of such a text.
group :
    (str octets dst : Bytes) (n from to : ℕ)
    → IsText str octets
    → ((k : ℕ) → k < n → (to + k < 16) × (text_place (to + k) ≡ from + k * 2))
    → (r : Bytes) × (read_octets n 0 from to str dst ≡ some r)
      × ((j : ℕ) → r j ≡ (if leb to j && ltb j (to + n) then octets j else dst j))
group str octets dst n from to t at =
    let (r, found, holds) =
      read_octets_lem n 0 from to str octets dst
        λ k lo hi. (let a = at k (omega arith) in rw a.1 at (t.digits (to + k) a.0)) in
    (r, found, λ j. ground (arith, holds j))

-- A group read behind those before it leaves all of them known.
extend :
    (octets dst r : Bytes) (m n : ℕ)
    → ((j : ℕ) → r j ≡ (if leb m j && ltb j (m + n) then octets j else dst j))
    → ((i : ℕ) → i < m → dst i ≡ octets i)
    → (i : ℕ) → i < m + n
    → r i ≡ octets i
extend octets dst r m n holds known i lt = elim (Bool-cases (leb m i)) [
  | inl new ↦ ground (arith, holds i)
  | inr old ↦ ground (arith, holds i, known i (ground arith))
]

-- `parse` reads every octet of a text of the format with hyphens.
parse_text :
    (str octets : Bytes)
    → IsText str octets
    → (r : Bytes) × (parse str ≡ some r) × ((i : ℕ) → i < 16 → r i ≡ octets i)
unfolding parse
parse_text str octets t =
    let (a, ea, ha) = group str octets nil 4 0 0 t (λ k lt. (omega arith, ground arith)) in
    let (b, eb, hb) = group str octets a 2 9 4 t (λ k lt. (omega arith, ground arith)) in
    let (c, ec, hc) = group str octets b 2 14 6 t (λ k lt. (omega arith, ground arith)) in
    let (d, ed, hd) = group str octets c 2 19 8 t (λ k lt. (omega arith, ground arith)) in
    let (e, ee, he) = group str octets d 6 24 10 t (λ k lt. (omega arith, ground arith)) in
    let (h8, h13, h18, h23) = t.hyphens in
    let first4 = extend octets nil a 0 4 ha (λ i lt. absurd (omega arith)) in
    let first6 = extend octets a b 4 2 hb first4 in
    let first8 = extend octets b c 6 2 hc first6 in
    let first10 = extend octets c d 8 2 hd first8 in
    let first16 = extend octets d e 10 6 he first10 in
    (e, rw (ea, h8, eb, h13, ec, h18, ed, h23) ee, first16)

-- The digits that `strfuid` writes, octet by octet.
digits_of :
    (dst octets : Bytes) (i : ℕ)
    → i < 16
    → (strfuid dst octets (text_place i) ≡ hex_digit (octets i / 16))
      × (strfuid dst octets (text_place i + 1) ≡ hex_digit (octets i % 16))
unfolding strfuid write_octets
digits_of dst octets =
    Every-at 16
      (λ i.
        (strfuid dst octets (text_place i) ≡ hex_digit (octets i / 16))
        × (strfuid dst octets (text_place i + 1) ≡ hex_digit (octets i % 16)))
      (
        (refl, refl),
        (
          (refl, refl),
          (
            (refl, refl),
            (
              (refl, refl),
              (
                (refl, refl),
                (
                  (refl, refl),
                  (
                    (refl, refl),
                    (
                      (refl, refl),
                      (
                        (refl, refl),
                        (
                          (refl, refl),
                          (
                            (refl, refl),
                            (
                              (refl, refl),
                              ((refl, refl), ((refl, refl), ((refl, refl), ((refl, refl), tt)))),
                            ),
                          ),
                        ),
                      ),
                    ),
                  ),
                ),
              ),
            ),
          ),
        ),
      )

-- `strfuid` writes such a text.
strfuid-IsText :
    (dst octets : Bytes) → ((i : ℕ) → i < 16 → octets i < 256) → IsText (strfuid dst octets) octets
unfolding strfuid write_octets
strfuid-IsText dst octets small = record {
  digits = λ i lt. (let d = digits_of dst octets i lt in (d.0, d.1, small i lt));
  hyphens = (refl, refl, refl, refl);
}

-- The text that `strfuid` writes for sixteen octets, each below 256, is parsed to these octets.
pub parse-strfuid :
    (dst octets : Bytes)
    → ((i : ℕ) → i < 16 → octets i < 256)
    → (r : Bytes) × (parse (strfuid dst octets) ≡ some r) × ((i : ℕ) → i < 16 → r i ≡ octets i)
parse-strfuid dst octets small =
    parse_text (strfuid dst octets) octets (strfuid-IsText dst octets small)

-- A digit is no brace.
digit-ne_brace : (d : ℕ) → d < 16 → (hex_digit d == b'{') ≡ false
unfolding hex_digit
digit-ne_brace d h = ground arith

IsText-same :
    (s t octets : Bytes) → ((i : ℕ) → i < 36 → s i ≡ t i) → IsText t octets → IsText s octets
IsText-same s t octets same v = record {
  digits = λ i lt.
      (let d = v.digits i lt in
        (
          same (text_place i) (ground arith) ∙ d.0,
          same (text_place i + 1) (ground arith) ∙ d.1,
          d.2,
        ));
  hyphens = (
    same 8 (omega arith) ∙ v.hyphens.0,
    same 13 (omega arith) ∙ v.hyphens.1,
    same 18 (omega arith) ∙ v.hyphens.2,
    same 23 (omega arith) ∙ v.hyphens.3,
  );
}

-- A parser's result that is the sixteen octets.
abbrev pub Gives : Option Bytes → Bytes → Type 0
Gives o octets = (r : Bytes) × (o ≡ some r) × ((i : ℕ) → i < 16 → r i ≡ octets i)

-- `parseAny` recognises the text that `strfuid` writes, by itself or between braces, and gives its octets.
parse_any-strfuid :
    (dst octets str : Bytes)
    → ((i : ℕ) → i < 16 → octets i < 256)
    → str 0 ≡ b'{'
    → str 37 ≡ b'}'
    → ((i : ℕ) → i < 36 → str (i + 1) ≡ strfuid dst octets i)
    → Gives (parse_any (strfuid dst octets)) octets × Gives (parse_any str) octets
unfolding parse_any parse_microsoft
parse_any-strfuid dst octets str small open_brace close_brace inner =
    let t = strfuid-IsText dst octets small in
    let (r, found, same) = parse_text (strfuid dst octets) octets t in
    let within = IsText-same (λ i. str (i + 1)) (strfuid dst octets) octets inner t in
    let (r', found', same') = parse_text (λ i. str (i + 1)) octets within in
    let plain : (strfuid dst octets 0 == b'{') ≡ false =
      rw (digits_of dst octets 0 (omega arith)).0
        (digit-ne_brace (octets 0 / 16) (let h = small 0 (omega arith) in omega arith)) in
    ((r, rw (plain, t.hyphens.0) found, same), (r', rw (open_brace, close_brace) found', same'))
