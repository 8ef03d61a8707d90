-- ===== src/View/Container.antt =====
-- `CImageItemManager` and `CImageItemContainer` of gui-app/src/Ui/ImageView.cpp. An item is its
-- address; the page numbers of the items are a map from addresses.
use sane_in_the_membrane.Common.{
  ℕ, suc, ◌+◌, ◌-◌, ◌^◌, List, [], ◌∷◌, ◌++◌, Option, none, some, ltb, ◌==◌, ◌||◌, if◌then◌else◌,
  length, drop,
}
use sane_in_the_membrane.Common.Word.{add64}
use sane_in_the_membrane.Common.Exec.{Exec, ok, fault, ◌>>=◌}
use sane_in_the_membrane.View.Layout.{BoxLayout, erase}

pub data MoveDirection : Type 0 where
  left right : MoveDirection

abbrev pub PageNumbers : Type 0
PageNumbers = ℕ → ℕ

-- `CImageItem::set_page_number`.
abbrev pub set_page_number : PageNumbers → ℕ → ℕ → PageNumbers
set_page_number numbers item n other = if item == other then n else numbers other

-- How many items a vector has that are the one given.
abbrev pub occurrences : List ℕ → ℕ → ℕ
occurrences [] a = 0
occurrences (b ∷ bs) a = let rest = occurrences bs a in if b == a then suc rest else rest

-- `page_number - 1` of a `std::size_t`.
abbrev pub page_below : ℕ → ℕ
page_below n = add64 n (2 ^ 64 - 1)

-- The loop of `remove_image`: one page down each.
abbrev pub all_down : List ℕ → PageNumbers → PageNumbers
all_down [] numbers = numbers
all_down (item ∷ items) numbers =
    all_down items (set_page_number numbers item (page_below (numbers item)))

-- `QLayoutItem::widget` of an item that `itemAt` did not find is a null pointer dereferenced.
abbrev pub widget : Option ℕ → Exec ℕ
widget none = fault
widget (some a) = ok a

module _ (q : BoxLayout) where
  open q use {Layout, add_widget, remove_widget, insert_widget, count, item_at}

  -- `m_items` of the manager in the order of insertion, and the layout.
  pub record Container : Type 0 where
    pub items : List ℕ
    pub layout : Layout
    pub numbers : PageNumbers

  -- `add_image(CImageItem*)`.
  unfoldable pub add_item : Container → ℕ → Container
  add_item c item = record c { items = c.items ++ (item ∷ []); layout = add_widget c.layout item }

  -- `add_image` of a scanned file: a new item gets the next page number.
  unfoldable pub add_image : Container → ℕ → Container
  unfolding add_item
  add_image c item =
      add_item (record c { numbers = set_page_number c.numbers item (length c.items + 1) }) item

  -- `add_image` of a page of a session, which brings its number.
  unfoldable pub add_restored : Container → ℕ → ℕ → Container
  unfolding add_item
  add_restored c item page =
      add_item (record c { numbers = set_page_number c.numbers item page }) item

  -- `CImageItemManager::remove_item` asserts that it erased one item.
  unfoldable pub remove_item : Container → ℕ → Exec Container
  remove_item c item =
      if occurrences c.items item == 1 then ok (record c { items = erase c.items item }) else fault

  unfoldable pub remove_image : Container → ℕ → Exec Container
  unfolding remove_item
  remove_image c item =
      let numbers = all_down (drop (c.numbers item) c.items) c.numbers in
      remove_item (record c { layout = remove_widget c.layout item; numbers = numbers }) item

  -- Two neighbours, at `first_index` and one above, change places and page numbers.
  unfoldable pub swap_pages : Container → ℕ → ℕ → Exec Container
  swap_pages c last_index first_index = do
    last_item ← widget (item_at c.layout last_index)
    first_item ← widget (item_at c.layout first_index)
    let page = c.numbers last_item
    let numbers = set_page_number c.numbers last_item (c.numbers first_item)
    ok (record c {
      numbers = set_page_number numbers first_item page;
      layout = insert_widget (insert_widget c.layout first_index last_item) last_index first_item;
    })

  abbrev pub swap_with : MoveDirection → ℕ → ℕ
  swap_with left page = page - 1
  swap_with right page = add64 page 1

  -- `page - 1` and `swap_with_page - 1`, the larger first.
  abbrev pub ordered_swap : Container → ℕ → ℕ → Exec Container
  ordered_swap c i j = if ltb i j then swap_pages c j i else swap_pages c i j

  unfoldable pub move_image : Container → ℕ → MoveDirection → Exec Container
  move_image c item direction =
      let page = c.numbers item in
      let other = swap_with direction page in
      if page == 0
      then ok c
      else if (other == 0) || ltb (count c.layout) other
      then ok c
      else ordered_swap c (page - 1) (other - 1)
