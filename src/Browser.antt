-- ===== src/Browser.antt =====
-- What the adapters use of the package `playwright`, of `@fizzbee/mbt`, and of Node's console: the
-- operations are parameters, over a world that they share.
pub mod Fake
use fizzbee_mbt_examples.Prelude.{ℕ, List, Option, Bool, Text, Exec}
use fizzbee_mbt_examples.Js.Numbers.{Number}

pub data AriaRole : Type 0 where
  textbox button link checkbox : AriaRole

-- `getByRole`, `getByTestId`, `locator(selector)`, each on a page or inside another locator, and
-- `nth`; `first()` is `nth 0`.
pub data Locator : Type 0 where
  by_role : AriaRole → Text → Locator
  by_test_id : Text → Locator
  css : Text → Locator
  inside : Locator → Locator → Locator
  nth : Locator → ℕ → Locator

pub record Response : Type 0 where
  pub url : Text
  pub method : Text
  pub is_ok : Bool

pub record Playwright : Type 1 where
  pub World : Type 0
  pub Browser : Type 0
  pub Context : Type 0
  pub Page : Type 0
  -- Browsers, contexts and pages.
  pub launch : Exec World Browser
  pub new_context : Browser → Exec World Context
  pub new_page : Context → Exec World Page
  pub close_page : Page → Exec World (Unit {0})
  pub close_context : Context → Exec World (Unit {0})
  pub close_browser : Browser → Exec World (Unit {0})
  pub is_closed : Page → World → Bool
  pub url : Page → World → Text
  pub goto : Page → Text → Exec World (Unit {0})
  pub clear_local_storage : Page → Exec World (Unit {0})
  -- Questions about the elements of a page.
  pub count : Page → Locator → Exec World ℕ
  pub all : Page → Locator → Exec World (List Locator)
  pub is_visible : Page → Locator → Exec World Bool
  pub is_checked : Page → Locator → Exec World Bool
  pub text_content : Page → Locator → Exec World (Option Text)
  pub get_attribute : Page → Locator → Text → Exec World (Option Text)
  -- Actions on them.
  pub click : Page → Locator → Exec World (Unit {0})
  pub dblclick : Page → Locator → Exec World (Unit {0})
  pub hover : Page → Locator → Exec World (Unit {0})
  pub fill : Page → Locator → Text → Exec World (Unit {0})
  pub press : Page → Locator → Text → Exec World (Unit {0})
  pub wait_for : Page → Locator → Exec World (Unit {0})
  -- `page.once('dialog', dialog => dialog.accept())`
  pub accept_next_dialog : Page → Exec World (Unit {0})
  -- `page.waitForFunction` on the text of the element with that id: it waits until it differs.
  pub wait_for_text_change : Page → Text → Option Text → Exec World (Unit {0})
  -- `Promise.all` of `page.waitForResponse`, with a timeout in milliseconds, and of a click.
  pub click_for_response : Page → (Response → Bool) → ℕ → Locator → Exec World Response
  -- `waitForDOMSettled(page, { debounceTimeout })` of `@fizzbee/mbt/playwright`.
  pub wait_for_dom_settled : Page → ℕ → Exec World (Unit {0})
  -- `console.error(message, e)`
  pub console_error : Text → Text → World → World

-- The type `Arg` of `@fizzbee/mbt`: `as_number` is the number that an argument is, if `typeof`
-- says so, and `to_text` is its `toString()`.
pub record ArgType : Type 1 where
  pub Arg : Type 0
  pub as_number : Arg → Option Number
  pub to_text : Arg → Text
  -- The index that a locator's `nth` takes an argument for, which may be missing.
  pub as_index : Option Arg → ℕ
