-- ===== src/Js/Numbers/RoundTrip.antt =====
-- `parseInt` reads back what `toString` prints of a natural number.
use fizzbee_mbt_examples.Prelude.{
  ℕ, suc, zero, ◌+◌, ◌-◌, ◌*◌, ◌/◌, ◌%◌, ◌≤◌, ◌<◌, [], ◌∷◌, ◌++◌, some, Text, ltb, ◌≡◌, ◌≢◌, ◌⊎◌,
  refl, ap, ◌∙◌, arith, All, All-append, Bool-cases, inl, inr,
}
use mathlib.Core.Option
use mathlib.Core.List.{concat-ne-nil}
use fizzbee_mbt_examples.Prelude.Int.{pos}
use fizzbee_mbt_examples.Js.Strings.{trim_start, is_space}
use fizzbee_mbt_examples.Js.Numbers.{
  digits, decimal, to_string, digit_value, in_radix, scan, unsigned, magnitude, signed, parse_int,
}

abbrev pub IsDigit : ℕ → Type 0
IsDigit c = (b'0' ≤ c) × (c ≤ b'9')

in_radix-digit : (c : ℕ) → IsDigit c → in_radix 10 (digit_value c) ≡ some (c - b'0')
unfolding in_radix digit_value
in_radix-digit c h = ground arith

scan-cons :
    (c : ℕ) (s : Text) (n : ℕ) → IsDigit c → scan 10 (c ∷ s) n ≡ scan 10 s (n * 10 + (c - b'0'))
unfolding scan
scan-cons c s n h = ground (arith, in_radix-digit c h)

pub scan-append :
    (u w : Text) (n : ℕ) → All IsDigit u → scan 10 (u ++ w) n ≡ scan 10 w (scan 10 u n)
scan-append [] w n h = unfold scan in refl
scan-append (c ∷ u) w n (hc, hu) =
    rw (scan-cons c (u ++ w) n hc, scan-cons c u n hc) (scan-append u w _ hu)

digits-split :
    (fuel n : ℕ)
    → ((n < 10) × (digits (suc fuel) n ≡ (b'0' + n) ∷ []))
      ⊎ ((9 < n) × (digits (suc fuel) n ≡ digits fuel (n / 10) ++ (b'0' + n % 10) ∷ []))
unfolding digits
digits-split fuel n = ground arith

pub digits-IsDigit : (fuel n : ℕ) → All IsDigit (digits fuel n)
unfolding digits
digits-IsDigit zero n = tt
digits-IsDigit (suc fuel) n = elim (Bool-cases (ltb n 10)) [
  | inl h ↦ rw h (ground arith)
  | inr h ↦
      rw h
        (All-append IsDigit (digits fuel (n / 10)) _ (digits-IsDigit fuel (n / 10)) (omega arith))
]

scan-digits : (fuel n : ℕ) → n < fuel → scan 10 (digits fuel n) 0 ≡ n
scan-digits zero n h = absurd (omega arith)
scan-digits (suc fuel) n h = elim (digits-split fuel n) [
  | inl (small, e) ↦
      rw e (rw (scan-cons (b'0' + n) [] 0 (omega arith)) (unfold scan in omega arith))
  | inr (large, e) ↦
      rw
        (
          e,
          scan-append (digits fuel (n / 10)) _ 0 (digits-IsDigit fuel (n / 10)),
          scan-digits fuel (n / 10) (omega arith),
        )
        (rw (scan-cons (b'0' + n % 10) [] (n / 10) (omega arith)) (unfold scan in omega arith))
]

digits-ne-nil : (fuel n : ℕ) → digits (suc fuel) n ≢ []
digits-ne-nil fuel n = elim (digits-split fuel n) [
  | inl (small, e) ↦ rw e (cc)
  | inr (large, e) ↦ rw e (concat-ne-nil _ _)
]

pub decimal-IsDigit : (n : ℕ) → All IsDigit (decimal n)
unfolding decimal
decimal-IsDigit n = digits-IsDigit (suc n) n

pub decimal-ne-nil : (n : ℕ) → decimal n ≢ []
unfolding decimal
decimal-ne-nil n = digits-ne-nil n n

pub scan-decimal : (n : ℕ) → scan 10 (decimal n) 0 ≡ n
unfolding decimal
scan-decimal n = scan-digits (suc n) n (omega arith)

digit_not_space : (c : ℕ) (s : Text) → IsDigit c → trim_start (c ∷ s) ≡ c ∷ s
unfolding trim_start is_space
digit_not_space c s h = ground arith

unsigned-digits : (c : ℕ) (s : Text) → IsDigit c → unsigned 10 (c ∷ s) ≡ some (scan 10 (c ∷ s) 0)
unfolding unsigned
unsigned-digits c s h = ground (arith, in_radix-digit c h, scan-cons c s 0 h)

magnitude-digits :
    (c : ℕ) (s : Text) → IsDigit c → All IsDigit s → magnitude (c ∷ s) ≡ unsigned 10 (c ∷ s)
unfolding magnitude
magnitude-digits c [] h hs = ground arith
magnitude-digits c (d ∷ s) h hs = ground arith

parse_int-signed : (s : Text) → parse_int s ≡ signed (trim_start s)
unfolding parse_int
parse_int-signed s = refl

signed-digits : (c : ℕ) (s : Text) → IsDigit c → signed (c ∷ s) ≡ Option.map pos (magnitude (c ∷ s))
unfolding signed
signed-digits c s h = ground arith

pub parse_int-digits : (s : Text) → s ≢ [] → All IsDigit s → parse_int s ≡ some (pos (scan 10 s 0))
parse_int-digits [] ne h = absurd (ne refl)
parse_int-digits (c ∷ s) ne (hc, hs) = rw (
  parse_int-signed,
  digit_not_space c s hc,
  signed-digits c s hc,
  magnitude-digits c s hc hs,
  unsigned-digits c s hc,
)

pub parse_int-decimal : (n : ℕ) → parse_int (decimal n) ≡ some (pos n)
parse_int-decimal n =
    parse_int-digits (decimal n) (decimal-ne-nil n) (decimal-IsDigit n)
    ∙ ap (λ k. some (pos k)) (scan-decimal n)

-- Every natural number is read back from its text.
pub parse_int-to_string : (n : ℕ) → parse_int (to_string (some (pos n))) ≡ some (pos n)
unfolding to_string
parse_int-to_string n = parse_int-decimal n
