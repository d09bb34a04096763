-- ===== src/Counter/Adapter/Refines.antt =====
-- Sequences of registered actions on a counter that simulates counter.fizz.
use mathlib.Core.Path.{ap₂}
use fizzbee_mbt_examples.Prelude.{
  List, [], ◌∷◌, Option, none, some, codes, map, map_get, Exec, Outcome, ok, throw, raise, ◌≡◌,
  refl, arith, continue, ◌∙◌,
}
use fizzbee_mbt_examples.Prelude.Int.{ℤ}
use fizzbee_mbt_examples.Counter.Defs.{Counter}
use fizzbee_mbt_examples.Counter.Spec
use fizzbee_mbt_examples.Counter.Spec.{Action, step, trace}
use fizzbee_mbt_examples.Counter.Adapter.{
  Reply, undefined, number, counter_role_adapter, action_registry, action_name, action_inc,
  action_get, action_dec,
}

-- A result of the specification, as the adapter returns it.
abbrev pub reply : Option ℤ → Outcome Reply
reply none = ok undefined
reply (some v) = ok (number v)

-- How each method of a counter meets the specification, in states related by `R`.
pub record Simulates {S : Type 0} (max : ℤ) (c : Counter S) (R : ℤ → S → Type 0) : Type 0 where
  pub inc : (v : ℤ) (s : S) → R v s → ((c.inc s).0 ≡ ok tt) × R (step max Spec.inc v).1 (c.inc s).1
  pub get : (v : ℤ) (s : S) → R v s → ((c.get s).0 ≡ ok v) × R v (c.get s).1
  pub dec : (v : ℤ) (s : S) → R v s → ((c.dec s).0 ≡ ok tt) × R (step max Spec.dec v).1 (c.dec s).1

-- A part of the state that no method changes.
pub record Keeps {S K : Type 0} (c : Counter S) (part : S → K) : Type 0 where
  pub inc : (s : S) → part (c.inc s).1 ≡ part s
  pub get : (s : S) → part (c.get s).1 ≡ part s
  pub dec : (s : S) → part (c.dec s).1 ≡ part s

pub Simulates-Keeps :
    {S K : Type 0} (max : ℤ) (c : Counter S) (R : ℤ → S → Type 0) (part : S → K) (k : K)
    → Simulates max c R
    → Keeps c part
    → Simulates max c (λ v s. R v s × (part s ≡ k))
Simulates-Keeps max c R part k sim keep = record {
  inc = λ v s (h, e). let (done, next) = sim.inc v s h in (done, (next, keep.inc s ∙ e));
  get = λ v s (h, e). let (done, next) = sim.get v s h in (done, (next, keep.get s ∙ e));
  dec = λ v s (h, e). let (done, next) = sim.dec v s h in (done, (next, keep.dec s ∙ e));
}

module _ (Arg : Type 0) {S : Type 0} (c : Counter S) where
  -- A registered action, looked up by the names of its role and of itself.
  abbrev pub perform : Action → List Arg → Exec S Reply
  perform a args = elim (map_get (codes "Counter") (action_registry Arg S)) [
    | none ↦ raise (codes "no such role")
    | some actions ↦ elim (map_get (action_name a) actions) [
      | none ↦ raise (codes "no such action")
      | some f ↦ f (counter_role_adapter Arg c) args
    ]
  ]

  -- The outcomes of a sequence of actions, and the last state.
  unfoldable pub perform_all : List (Action × List Arg) → S → List (Outcome Reply) × S
  perform_all [] s = ([], s)
  perform_all ((a, args) ∷ l) s =
      let (r, s') = perform a args s in let (rs, t) = perform_all l s' in (r ∷ rs, t)

  continue-ok :
      {A B : Type 0} (out : Outcome A × S) (a : A) (b : B)
      → out.0 ≡ ok a
      → continue out (λ _ s. (ok b, s)) ≡ (ok b, out.1)
  continue-ok (ok a', s) a b h = refl
  continue-ok (throw e, s) a b h = absurd (cc h)

  continue-number :
      (out : Outcome ℤ × S) (v : ℤ)
      → out.0 ≡ ok v
      → continue out (λ x s. (ok (number x), s)) ≡ (ok (number v), out.1)
  continue-number (ok a', s) v h = ground arith
  continue-number (throw e, s) v h = absurd (cc h)

  module _ (max : ℤ) (R : ℤ → S → Type 0) (sim : Simulates max c R) where
    perform-step :
        (a : Action) (args : List Arg) (v : ℤ) (s : S)
        → R v s
        → ((perform a args s).0 ≡ reply (step max a v).0) × R (step max a v).1 (perform a args s).1
    unfolding action_inc action_get action_dec step
    perform-step Spec.inc args v s h =
        let (done, next) = sim.inc v s h in
        rw (continue-ok (c.inc s) tt undefined done) (refl, next)
    perform-step Spec.get args v s h =
        let (done, next) = sim.get v s h in rw (continue-number (c.get s) v done) (refl, next)
    perform-step Spec.dec args v s h =
        let (done, next) = sim.dec v s h in
        rw (continue-ok (c.dec s) tt undefined done) (refl, next)

    -- The outcomes are the specification's results, and the last states are related.
    pub perform_all-trace :
        (l : List (Action × List Arg)) (v : ℤ) (s : S)
        → R v s
        → ((perform_all l s).0 ≡ map reply (trace max (map (λ x. x.0) l) v).0)
          × R (trace max (map (λ x. x.0) l) v).1 (perform_all l s).1
    unfolding perform_all trace
    perform_all-trace [] v s h = (refl, h)
    perform_all-trace ((a, args) ∷ l) v s h =
        let (r, next) = perform-step a args v s h in
        let (rs, last) = perform_all-trace l (step max a v).1 (perform a args s).1 next in
        (ap₂ ◌∷◌ r rs, last)
