-- ===== src/TodoMvc/Tests/App/Conforms.antt =====
-- The application behaves as documented, and a run on it.
use fizzbee_mbt_examples.Prelude.{
  ℕ, List, [], ◌∷◌, some, Bool, true, false, Text, codes, ok, ◌≡◌, refl, ap, map, if_then-true,
}
use fizzbee_mbt_examples.Js.Strings.Laws.{IsTrimmed}
use fizzbee_mbt_examples.Js.Strings.{trim_start, trim_end, is_space}
use fizzbee_mbt_examples.Browser.{button, checkbox, by_role}
use fizzbee_mbt_examples.TodoMvc.Spec
use fizzbee_mbt_examples.TodoMvc.Spec.{
  Item, State, Action, FilterState, all, active, completed, step, user_adds_item,
  user_switches_filter, user_toggles_item, user_toggles_all, user_deletes_item, user_edits_item,
  user_clears_completed, refresh, add_todo, toggle, destroy, shown, has_any, is_active, status,
  status_is, not_shown, on_shown, init, View,
}
use fizzbee_mbt_examples.TodoMvc.Spec.Invariant.{Reach}
use fizzbee_mbt_examples.TodoMvc.View.Renders.{Renders, observed}
use fizzbee_mbt_examples.TodoMvc.Lifecycle.{Model, new_adapter}
use fizzbee_mbt_examples.TodoMvc.Conforms.{IsTodoMvc, item_element, item_box, item_title, run}
use fizzbee_mbt_examples.TodoMvc.Conforms.Runs.{Run, run-observed}
use fizzbee_mbt_examples.TodoMvc.Tests.App.{act, app_page, Value, words, index, values}
use fizzbee_mbt_examples.TodoMvc.Tests.App.Elements.{
  Shows, act-Shows, drawn, from_own, on_shown-there, seen, has_todos, filter_of-name,
}

pub conforms : IsTodoMvc app_page tt Shows
unfolding step
conforms = record {
  renders =
      λ s w h. from_own s w (λ u. Renders app_page tt w u.view.now_showing u.todos) h (drawn w);
  settles = λ s w h. (w, refl, h);
  adds = λ s t w title h q e. record {
    filled = record w { typed = title };
    entered = act (user_adds_item title) (record w { typed = title });
    fills = refl;
    presses = refl;
    after =
        act-Shows (user_adds_item title) s t _
          (record { state = h.state; reached = h.reached; titled = h.titled }) q e;
  };
  switches = λ s t w f h e. record {
    visible = refl;
    clicked = act (user_switches_filter f) w;
    clicks = ap (λ g. (ok tt, act (user_switches_filter g) w)) (filter_of-name f);
    after = act-Shows (user_switches_filter f) s t w h tt e;
  };
  toggles = λ s t w i h e. record {
    visible = seen (item_box i) s w h (on_shown-there s _ _ t e);
    clicked = act (user_toggles_item i) w;
    clicks = refl;
    after = act-Shows (user_toggles_item i) s t w h tt e;
  };
  toggles_all = λ s t w h e. record {
    visible =
        seen (by_role checkbox (codes "❯Mark all as complete")) s w h (has_todos s t h.reached e);
    clicked = act user_toggles_all w;
    clicks = refl;
    after = act-Shows user_toggles_all s t w h tt e;
  };
  deletes = λ s t w i h e. (
    seen (item_element i) s w h (on_shown-there s _ _ t e),
    (w, act (user_deletes_item i) w, refl, refl, act-Shows (user_deletes_item i) s t w h tt e),
  );
  edits = λ s t w i new_text h q e. (
    seen (item_title i) s w h (on_shown-there s _ _ t e),
    (
      record w { editing = i },
      refl,
      record {
        filled = record w { editing = i; typed = new_text };
        entered = act (user_edits_item i new_text) (record w { editing = i; typed = new_text });
        fills = refl;
        presses = refl;
        after =
            act-Shows (user_edits_item i new_text) s t _
              (record { state = h.state; reached = h.reached; titled = h.titled }) q e;
      },
    ),
  );
  clears = λ s t w h e. record {
    visible =
        seen (by_role button (codes "Clear completed")) s w h
          (if_then-true s.view.clear_button_shown _ e);
    clicked = act user_clears_completed w;
    clicks = refl;
    after = act-Shows user_clears_completed s t w h tt e;
  };
}

abbrev opened : Model app_page
opened = record {
  self = record (new_adapter app_page) { page = some tt };
  world = record { state = init; typed = []; editing = 0 };
}

abbrev milk : Text
milk = codes "milk"

-- A todo is added, completed, looked at under another filter, and edited to nothing.
abbrev pub allowed : List (Action × List Value)
allowed =
    (user_adds_item milk, words milk ∷ [])
    ∷ (user_toggles_item 0, index 0 ∷ [])
    ∷ (user_switches_filter completed, words (codes "Completed") ∷ [])
    ∷ (user_edits_item 0 [], index 0 ∷ words [] ∷ [])
    ∷ []

abbrev item : Bool → Spec.Item
item b = record { id = 0; title = milk; completed = b }

abbrev state : FilterState → List Spec.Item → ℕ → Spec.ToggleAllStatus → Bool → State
state f ts n st b = record {
  todos = ts;
  next_id = 1;
  view = record {
    now_showing = f;
    shown_todos = ts;
    active_todo_count = n;
    toggle_all_status = st;
    clear_button_shown = b;
  };
}

abbrev pub last : State
last = state completed [] 0 Spec.not_shown false

abbrev pub views : List Spec.View
views =
    (state all (item false ∷ []) 1 Spec.unchecked false).view
    ∷ (state all (item true ∷ []) 0 Spec.checked true).view
    ∷ (state completed (item true ∷ []) 0 Spec.checked true).view
    ∷ last.view
    ∷ []

milk-IsTrimmed : IsTrimmed milk
unfolding trim_start trim_end is_space
milk-IsTrimmed = record { start = refl; finish = refl }

nothing-IsTrimmed : IsTrimmed []
unfolding trim_start trim_end
nothing-IsTrimmed = record { start = refl; finish = refl }

pub milk-Run : Run values init allowed views last
unfolding step add_todo toggle refresh destroy
milk-Run =
    Run.then {t = state all (item false ∷ []) 1 Spec.unchecked false} refl (words milk, refl, refl)
      milk-IsTrimmed
      (Run.then {t = state all (item true ∷ []) 0 Spec.checked true} refl refl tt (
        Run.then {t = state completed (item true ∷ []) 0 Spec.checked true} refl
          (words (codes "Completed"), refl, refl) tt
          (Run.then {t = last} refl (refl, (words [], refl, refl)) nothing-IsTrimmed Run.done)))

run-observed_example :
    (m' : Model app_page) × (run values app_page tt allowed opened ≡ (ok (map observed views), m'))
    × (m'.self ≡ opened.self)
    × Shows last m'.world
run-observed_example =
    run-observed values app_page tt Shows conforms opened refl Reach.start
      (record { state = refl; reached = Reach.start; titled = tt }) milk-Run
