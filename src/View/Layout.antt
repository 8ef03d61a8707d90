-- ===== src/View/Layout.antt =====
-- The part of Qt's `QBoxLayout` that gui-app/src/Ui/ImageView.cpp uses, with its documented
-- behaviour: a layout is a sequence of widgets, and a widget that is inserted leaves the place it had.
use sane_in_the_membrane.Common.{
  ℕ, zero, suc, ◌≡◌, List, [], ◌∷◌, ◌++◌, Option, length, get_elem?, ◌==◌, if◌then◌else◌, refl,
}

-- Every occurrence of a widget leaves.
abbrev pub erase : List ℕ → ℕ → List ℕ
erase [] a = []
erase (b ∷ bs) a = let rest = erase bs a in if b == a then rest else b ∷ rest

-- An index past the end inserts at the end.
abbrev pub insert_at : ℕ → ℕ → List ℕ → List ℕ
insert_at i a [] = a ∷ []
insert_at zero a (b ∷ bs) = a ∷ b ∷ bs
insert_at (suc i) a (b ∷ bs) = b ∷ insert_at i a bs

pub record BoxLayout : Type 1 where
  pub Layout : Type 0
  pub widgets : Layout → List ℕ
  pub add_widget : Layout → ℕ → Layout
  pub remove_widget : Layout → ℕ → Layout
  pub insert_widget : Layout → ℕ → ℕ → Layout
  pub count : Layout → ℕ
  pub item_at : Layout → ℕ → Option ℕ
  pub widgets-add_widget :
      (l : Layout) (a : ℕ) → widgets (add_widget l a) ≡ erase (widgets l) a ++ (a ∷ [])
  pub widgets-remove_widget :
      (l : Layout) (a : ℕ) → widgets (remove_widget l a) ≡ erase (widgets l) a
  pub widgets-insert_widget :
      (l : Layout) (i a : ℕ) → widgets (insert_widget l i a) ≡ insert_at i a (erase (widgets l) a)
  pub count_lem : (l : Layout) → count l ≡ length (widgets l)
  pub item_at_lem : (l : Layout) (i : ℕ) → item_at l i ≡ get_elem? (widgets l) i

-- The sequence itself is such a layout.
abbrev pub list_layout : BoxLayout
list_layout = record {
  Layout = List ℕ;
  widgets = λ l. l;
  add_widget = λ l a. erase l a ++ (a ∷ []);
  remove_widget = erase;
  insert_widget = λ l i a. insert_at i a (erase l a);
  count = length;
  item_at = get_elem?;
  widgets-add_widget = λ l a. refl;
  widgets-remove_widget = λ l a. refl;
  widgets-insert_widget = λ l i a. refl;
  count_lem = λ l. refl;
  item_at_lem = λ l i. refl;
}
