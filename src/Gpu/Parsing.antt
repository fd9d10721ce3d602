-- ===== src/Gpu/Parsing.antt =====
-- `parseUint` (internal/collectors/gpu/gpu_linux.go) against decimal numbers.
use truespec_agent.Prelude.{
  ℕ, zero, suc, ◌+◌, ◌-◌, ◌*◌, ◌/◌, ◌%◌, ◌^◌, ◌<◌, ◌≡◌, refl, ap, ◌∙◌, Bool, true, false, ◌&&◌,
  List, [], ◌∷◌, ◌++◌, arith, ltb, inl, inr, Bool-cases, if◌then◌else◌,
}
use truespec_agent.Text.{Text, is_space, trim_left, trim_right, trim_space}
use truespec_agent.Gpu.Defs.{is_digit, parse_digits, parse_uint}

-- The ten digits of ASCII.
abbrev pub is_decimal : ℕ → Bool
is_decimal c = ltb 47 c && ltb c 58

is_digit-is_decimal : (c : ℕ) → is_digit c ≡ is_decimal c
is_digit-is_decimal c = ground arith

-- The digits of a text, as numbers.
abbrev pub digits : Text → List ℕ
digits [] = []
digits (c ∷ s) = let rest = digits s in if is_decimal c then (c - 48) ∷ rest else rest

-- The number that digits denote after the first argument, without a bound.
abbrev pub value : ℕ → List ℕ → ℕ
value v [] = v
value v (d ∷ ds) = value (v * 10 + d) ds

-- Numbers with the same remainder go on to such numbers.
value_mod :
    (v w : ℕ) (ds : List ℕ) → v % 2 ^ 64 ≡ w % 2 ^ 64 → value v ds % 2 ^ 64 ≡ value w ds % 2 ^ 64
value_mod v w [] same = same
value_mod v w (d ∷ ds) same = value_mod (v * 10 + d) (w * 10 + d) ds (omega (arith, same))

parse_digits-value :
    (v : ℕ) (s : Text) → v < 2 ^ 64 → parse_digits v s ≡ value v (digits s) % 2 ^ 64
unfolding parse_digits
parse_digits-value v [] bound = omega arith
parse_digits-value v (c ∷ s) bound = elim (Bool-cases (is_decimal c)) [
  | inr other ↦ rw (is_digit-is_decimal c, other) (parse_digits-value v s bound)
  | inl digit ↦
      rw (is_digit-is_decimal c, digit)
        (parse_digits-value ((v * 10 + (c - 48)) % 2 ^ 64) s (omega arith)
          ∙ value_mod ((v * 10 + (c - 48)) % 2 ^ 64) (v * 10 + (c - 48)) (digits s) (omega arith))
]

space_not_digit : (c : ℕ) → is_space c ≡ true → is_decimal c ≡ false
unfolding is_space
space_not_digit c space = ground arith

digits-trim_left : (s : Text) → digits (trim_left s) ≡ digits s
digits-trim_left [] = refl
digits-trim_left (c ∷ s) = elim (Bool-cases (is_space c)) [
  | inr other ↦ rw other refl
  | inl space ↦ rw (space, space_not_digit c space) (digits-trim_left s)
]

-- One step of `trim_right`, at what is left of the rest.
digits-trim_step :
    (c : ℕ) (t : Text)
    → digits (elim t [ [] ↦ if is_space c then [] else c ∷ [] | d ∷ r ↦ c ∷ d ∷ r ])
      ≡ (if is_decimal c then (c - 48) ∷ digits t else digits t)
digits-trim_step c [] = elim (Bool-cases (is_space c)) [
  | inr other ↦ rw other refl
  | inl space ↦ rw (space, space_not_digit c space) refl
]
digits-trim_step c (d ∷ r) = refl

digits-trim_right : (s : Text) → digits (trim_right s) ≡ digits s
digits-trim_right [] = refl
digits-trim_right (c ∷ s) =
    digits-trim_step c (trim_right s)
    ∙ ap (λ (ds : List ℕ). if is_decimal c then (c - 48) ∷ ds else ds) (digits-trim_right s)

-- `parseUint` gives the number that the digits of the text denote, in 64 bits, whatever else
-- stands between them.
pub parse_uint-value : (s : Text) → parse_uint s ≡ value 0 (digits s) % 2 ^ 64
unfolding parse_uint
parse_uint-value s =
    parse_digits-value 0 (trim_space s) (omega arith)
    ∙ ap (λ (ds : List ℕ). value 0 ds % 2 ^ 64)
        (digits-trim_right (trim_left s) ∙ digits-trim_left s)

-- A number in decimal. The fuel is enough if it exceeds the number.
abbrev pub decimal_text : ℕ → ℕ → Text
decimal_text zero n = []
decimal_text (suc fuel) n =
    let front = decimal_text fuel (n / 10) in
    if ltb n 10 then (48 + n) ∷ [] else front ++ (48 + n % 10) ∷ []

digits-append : (s t : Text) → digits (s ++ t) ≡ digits s ++ digits t
digits-append [] t = refl
digits-append (c ∷ s) t = ground (arith, digits-append s t)

value-append : (v : ℕ) (ds : List ℕ) (d : ℕ) → value v (ds ++ d ∷ []) ≡ value v ds * 10 + d
value-append v [] d = refl
value-append v (e ∷ ds) d = value-append (v * 10 + e) ds d

digits-digit : (d : ℕ) → d < 10 → digits ((48 + d) ∷ []) ≡ d ∷ []
digits-digit d small = ground arith

value-decimal_text : (fuel n : ℕ) → n < fuel → value 0 (digits (decimal_text fuel n)) ≡ n
value-decimal_text zero n bound = absurd (omega arith)
value-decimal_text (suc fuel) n bound = elim (Bool-cases (ltb n 10)) [
  | inl small ↦ rw small (ground arith)
  | inr large ↦
      let front = decimal_text fuel (n / 10) in
      rw
        (
          large,
          digits-append front ((48 + n % 10) ∷ []),
          digits-digit (n % 10) (omega arith),
          value-append 0 (digits front) (n % 10),
          value-decimal_text fuel (n / 10) (ground arith),
        )
        (omega arith)
]

-- Reading back a number that is written in decimal gives the number, if it fits 64 bits.
pub parse_uint-decimal_text : (n : ℕ) → n < 2 ^ 64 → parse_uint (decimal_text (suc n) n) ≡ n
parse_uint-decimal_text n bound =
    parse_uint-value (decimal_text (suc n) n)
    ∙ ap (λ (v : ℕ). v % 2 ^ 64) (value-decimal_text (suc n) n (omega arith))
    ∙ omega arith
