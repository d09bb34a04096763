-- ===== src/Browser/Fake.antt =====
-- A page with fixed answers, for tests: the world counts the actions that were carried out.
use fizzbee_mbt_examples.Prelude.{
  ℕ, ◌+◌, List, Option, none, some, Bool, true, false, Text, codes, ok, throw, Exec,
}
use fizzbee_mbt_examples.Prelude.Int.{pos}
use fizzbee_mbt_examples.Browser.{Locator, Playwright, ArgType}

pub record Dom : Type 0 where
  pub launches : Bool
  pub url : Text
  pub count : Locator → ℕ
  pub all : Locator → List Locator
  pub visible : Locator → Bool
  pub checked : Locator → Bool
  pub text : Locator → Option Text
  pub attribute : Locator → Text → Option Text

abbrev pub acts : Exec ℕ (Unit {0})
acts n = (ok tt, n + 1)

abbrev pub answers : {A : Type 0} → A → Exec ℕ A
answers a n = (ok a, n)

abbrev pub launched : Bool → Exec ℕ (Unit {0})
launched true n = acts n
launched false n = (throw (codes "no browser"), n)

abbrev pub fake : Dom → Playwright
fake d = record {
  World = ℕ;
  Browser = Unit {0};
  Context = Unit {0};
  Page = Unit {0};
  launch = launched d.launches;
  new_context = λ b. acts;
  new_page = λ c. acts;
  close_page = λ p. acts;
  close_context = λ c. acts;
  close_browser = λ b. acts;
  is_closed = λ p n. false;
  url = λ p n. d.url;
  goto = λ p t. acts;
  clear_local_storage = λ p. acts;
  count = λ p l. answers (d.count l);
  all = λ p l. answers (d.all l);
  is_visible = λ p l. answers (d.visible l);
  is_checked = λ p l. answers (d.checked l);
  text_content = λ p l. answers (d.text l);
  get_attribute = λ p l a. answers (d.attribute l a);
  click = λ p l. acts;
  dblclick = λ p l. acts;
  hover = λ p l. acts;
  fill = λ p l t. acts;
  press = λ p l t. acts;
  wait_for = λ p l. acts;
  accept_next_dialog = λ p. acts;
  wait_for_text_change = λ p i t. acts;
  click_for_response = λ p f t l n.
      (ok (record { url = codes "/todos/1/pin"; method = codes "PATCH"; is_ok = true }), n + 1);
  wait_for_dom_settled = λ p t. acts;
  console_error = λ t e n. n + 1;
}

-- Arguments that are numbers.
abbrev pub numbers : ArgType
numbers = record {
  Arg = ℕ;
  as_number = λ n. some (some (pos n));
  to_text = λ n. codes "A";
  as_index = λ a. elim a [ none ↦ 0 | some n ↦ n ];
}
