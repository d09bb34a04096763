-- ===== src/TodoApp/Format/Injective.antt =====
-- Which records have one text in `toFizzBeeFormat` of todo_adapters.ts.
use mathlib.Core.List.{append_cancel_right}
use fizzbee_mbt_examples.Prelude.{
  ℕ, [], ◌∷◌, ◌++◌, some, Bool, true, false, Text, codes, ◌≡◌, refl, sym, ap, ◌∙◌, arith, All, drop,
}
use fizzbee_mbt_examples.Prelude.Int.{pos}
use fizzbee_mbt_examples.Js.Numbers.{decimal, to_string, scan}
use fizzbee_mbt_examples.Js.Numbers.RoundTrip.{IsDigit, decimal-IsDigit, scan-decimal}
use fizzbee_mbt_examples.TodoApp.Format.{bool_text, to_fizz_bee_format}

cons-injective : {a b : ℕ} {s t : Text} → a ∷ s ≡ b ∷ t → (a ≡ b) × (s ≡ t)
cons-injective e = (cc e, ap (drop 1) e)

-- Digits, up to the first comma.
digits-injective :
    (u v s t : Text)
    → All IsDigit u
    → All IsDigit v
    → u ++ b',' ∷ s ≡ v ++ b',' ∷ t
    → (u ≡ v) × (s ≡ t)
digits-injective [] [] s t hu hv e = (refl, ap (drop 1) e)
digits-injective [] (d ∷ v) s t hu (hd, hv) e = absurd (omega (arith, (cons-injective e).0))
digits-injective (c ∷ u) [] s t (hc, hu) hv e = absurd (omega (arith, (cons-injective e).0))
digits-injective (c ∷ u) (d ∷ v) s t (hc, hu) (hd, hv) e =
    let (same, rest) = cons-injective e in
    let (more, tails) = digits-injective u v s t hu hv rest in (cc (same, more), tails)

decimal-injective : (i j : ℕ) → decimal i ≡ decimal j → i ≡ j
decimal-injective i j e = sym (scan-decimal i) ∙ ap (λ s. scan 10 s 0) e ∙ scan-decimal j

bool_text-injective :
    (a b : Bool) (s t : Text) → bool_text a ++ s ≡ bool_text b ++ t → (a ≡ b) × (s ≡ t)
bool_text-injective true true s t e = (refl, ap (drop 4) e)
bool_text-injective false false s t e = (refl, ap (drop 5) e)
bool_text-injective true false s t e = absurd (omega (arith, (cons-injective e).0))
bool_text-injective false true s t e = absurd (omega (arith, (cons-injective e).0))

abbrev value_part : Text → Text
value_part v = codes " value = \"" ++ (v ++ b'"' ∷ [])

abbrev pinned_part : Bool → Text → Text
pinned_part p v = codes " pinned = " ++ (bool_text p ++ b',' ∷ value_part v)

abbrev id_part : ℕ → Bool → Text → Text
id_part i p v = codes ", id = " ++ (decimal i ++ b',' ∷ pinned_part p v)

abbrev entries : Bool → ℕ → Bool → Text → Text
entries d i p v = codes "deleted = " ++ (bool_text d ++ id_part i p v)

-- Two records with natural numbers as ids that have one text, as `ReadTodo` returns it, are equal.
pub to_fizz_bee_format-injective :
    (i j : ℕ) (v w : Text) (deleted gone pinned fixed : Bool)
    → to_fizz_bee_format
        (record { id = some (pos i); value = v; deleted = deleted; pinned = pinned })
      ≡ to_fizz_bee_format (record { id = some (pos j); value = w; deleted = gone; pinned = fixed })
    → (i ≡ j) × (v ≡ w) × (deleted ≡ gone) × (pinned ≡ fixed)
unfolding to_fizz_bee_format to_string
to_fizz_bee_format-injective i j v w deleted gone pinned fixed e =
    let e0 =
      append_cancel_right (entries deleted i pinned v) (entries gone j fixed w) (b')' ∷ [])
        (ap (drop 7) e) in
    let (same_deleted, e1) =
      bool_text-injective deleted gone (id_part i pinned v) (id_part j fixed w) (ap (drop 10) e0) in
    let (same_digits, e2) =
      digits-injective (decimal i) (decimal j) (pinned_part pinned v) (pinned_part fixed w)
        (decimal-IsDigit i) (decimal-IsDigit j) (ap (drop 7) e1) in
    let (same_pinned, e3) =
      bool_text-injective pinned fixed (b',' ∷ value_part v) (b',' ∷ value_part w)
        (ap (drop 10) e2) in
    (
      decimal-injective i j same_digits,
      append_cancel_right v w (b'"' ∷ []) (ap (drop 11) e3),
      same_deleted,
      same_pinned,
    )
