-- ===== src/Session/Items.antt =====
-- The pages of the session file: `CImageView::serialize_items` and `deserialize_items` of
-- gui-app/src/Ui/ImageView.cpp.
use sane_in_the_membrane.Common.{
  ℕ, zero, suc, ◌≡◌, ◌∙◌, sym, List, [], ◌∷◌, ◌++◌, Option, none, some, append-nil, append_assoc,
  ltb, if◌then◌else◌, length,
}
use sane_in_the_membrane.Common.Word.{add64, to_bytes, of_bytes}
use sane_in_the_membrane.Common.Exec.{Exec, ok, stuck, ◌>>=◌, Expected, value, unexpected}
use sane_in_the_membrane.Session.Memory.{Memory, limit, load}
use sane_in_the_membrane.Session.Item.{ImageItemSerialized, serialize, deserialize}

pub data ItemsError : Type 0 where
  item_end_outside_of_allowed_range : ItemsError

-- Each page is written behind its length.
unfoldable pub serialize_loop : List ℕ → List ImageItemSerialized → List ℕ
serialize_loop bytes [] = bytes
serialize_loop bytes (item ∷ items) =
    let serialized_data = serialize item in
    serialize_loop ((bytes ++ to_bytes 8 (length serialized_data)) ++ serialized_data) items

unfoldable pub serialize_items : List ImageItemSerialized → List ℕ
unfolding serialize_loop
serialize_items items = serialize_loop [] items

abbrev pub push_value :
    List ImageItemSerialized → Option ImageItemSerialized → List ImageItemSerialized
push_value items none = items
push_value items (some item) = items ++ (item ∷ [])

-- The loop from the address `start`, with the pages read so far; a page that cannot be read is
-- skipped. The fuel counts the rounds.
unfoldable pub deserialize_loop :
    ℕ
    → Memory
    → ℕ
    → List ImageItemSerialized
    → Exec (Expected (List ImageItemSerialized) ItemsError)
deserialize_loop zero mem start items = stuck
deserialize_loop (suc fuel) mem start items =
    let rest = (do
      word ← load mem start 8
      let item_start = add64 start 8
      let item_end = add64 item_start (of_bytes word)
      if ltb (limit mem) item_end
          then ok (unexpected item_end_outside_of_allowed_range)
          else (deserialize mem item_start item_end >>= λ item_data.
              deserialize_loop fuel mem item_end (push_value items item_data))) in
    if ltb start (limit mem) then rest else ok (value items)

unfoldable pub deserialize_items :
    ℕ → Memory → Exec (Expected (List ImageItemSerialized) ItemsError)
unfolding deserialize_loop
deserialize_items fuel mem = deserialize_loop fuel mem mem.base []

-- One page with its length in front.
abbrev pub frame : ImageItemSerialized → List ℕ
frame item = to_bytes 8 (length (serialize item)) ++ serialize item

abbrev pub frames : List ImageItemSerialized → List ℕ
frames [] = []
frames (item ∷ items) = frame item ++ frames items

serialize_loop-frames :
    (bytes : List ℕ) (items : List ImageItemSerialized)
    → serialize_loop bytes items ≡ bytes ++ frames items
unfolding serialize_loop
serialize_loop-frames bytes [] = sym (append-nil bytes)
serialize_loop-frames bytes (item ∷ items) =
    serialize_loop-frames ((bytes ++ to_bytes 8 (length (serialize item))) ++ serialize item) items
    ∙ simp append_assoc

pub serialize_items-frames :
    (items : List ImageItemSerialized) → serialize_items items ≡ frames items
unfolding serialize_items
serialize_items-frames items = serialize_loop-frames [] items
