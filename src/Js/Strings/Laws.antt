-- ===== src/Js/Strings/Laws.antt =====
-- Laws of the string methods.
use mathlib.Core.List.{reverse, reverse-reverse, reverse-append}
use fizzbee_mbt_examples.Prelude.{
  ◌≤◌, ℕ, [], ◌∷◌, ◌++◌, true, false, Text, ◌≡◌, ◌≢◌, refl, sym, ap, ◌∙◌, arith, All, length,
  Bool-cases, inl, inr,
}
use fizzbee_mbt_examples.Js.Strings.{is_space, trim_start, trim_end, trim, starts_with, split}

pub starts_with-append : (p s : Text) → starts_with (p ++ s) p ≡ true
starts_with-append [] s = refl
starts_with-append (c ∷ p) s = ground (arith, starts_with-append p s)

pub trim_start-space : (c : ℕ) (s : Text) → is_space c ≡ true → trim_start (c ∷ s) ≡ trim_start s
unfolding trim_start
trim_start-space c s h = rw h

-- Trimming the start of what was trimmed there changes nothing.
trim_start_idem : (s : Text) → trim_start (trim_start s) ≡ trim_start s
unfolding trim_start
trim_start_idem [] = refl
trim_start_idem (c ∷ s) = elim (Bool-cases (is_space c)) [
  | inl h ↦ rw h (trim_start_idem s)
  | inr h ↦ rw h (rw h)
]

trim_end_idem : (s : Text) → trim_end (trim_end s) ≡ trim_end s
unfolding trim_end
trim_end_idem s = rw (reverse-reverse, trim_start_idem)

-- The parts of a text without the separator, and of one behind it.
pub split-Lacks : (s : Text) (sep : ℕ) → All (λ c. c ≢ sep) s → split s sep ≡ s ∷ []
unfolding split
split-Lacks [] sep h = refl
split-Lacks (c ∷ s) sep h = ground (arith, split-Lacks s sep h.1)

length-trim_start : (s : Text) → length (trim_start s) ≤ length s
unfolding trim_start
length-trim_start [] = omega arith
length-trim_start (c ∷ s) = ground (arith, length-trim_start s)

-- A text that does not begin with white space.
head_not_space : (c : ℕ) (s : Text) → trim_start (c ∷ s) ≡ c ∷ s → is_space c ≡ false
head_not_space c s h = elim (Bool-cases (is_space c)) [
  | inl e ↦
      absurd (omega (arith, length-trim_start s, ap length (sym (trim_start-space c s e) ∙ h)))
  | inr e ↦ e
]

trim_start-append : (u w : Text) → u ≢ [] → trim_start u ≡ u → trim_start (u ++ w) ≡ u ++ w
unfolding trim_start
trim_start-append [] w ne h = absurd (ne refl)
trim_start-append (c ∷ u) w ne h = rw (head_not_space c u h)

reverse-ne-nil : (s : Text) → s ≢ [] → reverse s ≢ []
reverse-ne-nil s h e = h (sym (reverse-reverse s) ∙ ap reverse e)

trim_end-append : (p v : Text) → v ≢ [] → trim_end v ≡ v → trim_end (p ++ v) ≡ p ++ v
unfolding trim_end
trim_end-append p v ne h = rw (
  reverse-append,
  trim_start-append (reverse v) (reverse p) (reverse-ne-nil v ne)
      (sym (reverse-reverse (trim_start (reverse v))) ∙ ap reverse h),
  ← reverse-append p v,
  reverse-reverse,
)

-- A text with no white space at either end.
pub record IsTrimmed (s : Text) : Type 0 where
  pub start : trim_start s ≡ s
  pub finish : trim_end s ≡ s

pub trim_of_IsTrimmed : (s : Text) → IsTrimmed s → trim s ≡ s
unfolding trim
trim_of_IsTrimmed s h = ap trim_end h.start ∙ h.finish

pub IsTrimmed-append :
    (p v : Text) → p ≢ [] → v ≢ [] → trim_start p ≡ p → trim_end v ≡ v → IsTrimmed (p ++ v)
IsTrimmed-append p v np nv hp hv = record {
  start = trim_start-append p v np hp;
  finish = trim_end-append p v nv hv;
}
