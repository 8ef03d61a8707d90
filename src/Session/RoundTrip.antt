-- ===== src/Session/RoundTrip.antt =====
-- What was written is read back: one page, and the whole list of pages.
use sane_in_the_membrane.Common.{
  ℕ, zero, suc, ◌+◌, ◌^◌, ◌≤◌, ◌<◌, ◌≡◌, refl, ap, ◌∙◌, List, [], ◌∷◌, ◌++◌, some, arith,
  append-nil, append_assoc, ltb, length, length-append, All, true, false, lt→ltb,
}
use sane_in_the_membrane.Common.Word.{add64, to_bytes, length-to_bytes, of_bytes-to_bytes}
use sane_in_the_membrane.Common.Exec.{ok, value}
use sane_in_the_membrane.Session.Memory.{
  Memory, limit, load, Fits, Holds, Holds-left, Holds-right, Holds-bound, Holds-whole, load-Holds,
  load-word,
}
use sane_in_the_membrane.Session.Item.{
  ImageItemSerialized, IsItem, matrix_bytes, serialize, deserialize, length-matrix_bytes,
  length-serialize, matrix_of_bytes-matrix_bytes,
}
use sane_in_the_membrane.Session.Items.{
  deserialize_loop, deserialize_items, serialize_items, frame, frames, serialize_items-frames,
}

ltb-ge : (a b : ℕ) → b ≤ a → ltb a b ≡ false
ltb-ge a b h = ground arith

add64-small : (p n : ℕ) → p + n < 2 ^ 64 → add64 p n ≡ p + n
add64-small p n h = omega arith

module _ {m : Memory} {p : ℕ} (item : ImageItemSerialized) (fits : Fits m)
    (h : Holds m p (serialize item)) where
  Holds-matrix : Holds m p (matrix_bytes item.transform_matrix)
  unfolding serialize
  Holds-matrix = Holds-left _ _ h

  Holds-rest :
      Holds m (p + 72) (to_bytes 8 item.page_number ++ (to_bytes 8 (length item.path) ++ item.path))
  unfolding serialize
  Holds-rest =
      rw (length-matrix_bytes item.transform_matrix) at
        (Holds-right (matrix_bytes item.transform_matrix) _ h)

  Holds-tail : Holds m (p + 72 + 8) (to_bytes 8 (length item.path) ++ item.path)
  Holds-tail =
      rw (length-to_bytes 8 item.page_number) at
        (Holds-right (to_bytes 8 item.page_number) _ Holds-rest)

  Holds-path : Holds m (p + 72 + 8 + 8) item.path
  Holds-path =
      rw (length-to_bytes 8 (length item.path)) at
        (Holds-right (to_bytes 8 (length item.path)) _ Holds-tail)

  load-matrix : load m p 72 ≡ ok (matrix_bytes item.transform_matrix)
  load-matrix = rw (length-matrix_bytes item.transform_matrix) at (load-Holds _ Holds-matrix)

  item_bound : p + 88 + length item.path < 2 ^ 64
  item_bound = omega (arith, Holds-bound item.path Holds-path)

  -- A page that the vector holds is read back field for field.
  pub deserialize-serialize :
      IsItem item → deserialize m p (p + length (serialize item)) ≡ ok (some item)
  unfolding deserialize
  deserialize-serialize w = simp (
    length-serialize item,
    add64-small p 72 (omega (arith, item_bound)),
    add64-small (p + 72) 8 (omega (arith, item_bound)),
    add64-small (p + 72 + 8) 8 (omega (arith, item_bound)),
    add64-small (p + 72 + 8 + 8) (length item.path) (omega (arith, item_bound)),
    ltb-ge (p + (88 + length item.path)) (p + 72) (omega arith),
    ltb-ge (p + (88 + length item.path)) (p + 72 + 8) (omega arith),
    ltb-ge (p + (88 + length item.path)) (p + 72 + 8 + 8) (omega arith),
    ltb-ge (p + (88 + length item.path)) (p + 72 + 8 + 8 + length item.path) (omega arith),
    load-matrix,
    load-word item.page_number (Holds-left _ _ Holds-rest),
    load-word (length item.path) (Holds-left _ _ Holds-tail),
    of_bytes-to_bytes item.page_number w.page,
    of_bytes-to_bytes (length item.path) (omega (arith, item_bound)),
    load-Holds item.path Holds-path,
    matrix_of_bytes-matrix_bytes item.transform_matrix w.matrix,
  )

-- One round of the loop at a page that the vector holds.
module _ {m : Memory} {p : ℕ} (item : ImageItemSerialized) (fits : Fits m)
    (h : Holds m p (frame item)) where
  Holds-item : Holds m (p + 8) (serialize item)
  Holds-item =
      rw (length-to_bytes 8 (length (serialize item))) at
        (Holds-right (to_bytes 8 (length (serialize item))) _ h)

  frame_bound : p + 8 + length (serialize item) ≤ limit m
  frame_bound = Holds-bound (serialize item) Holds-item

  deserialize_loop-frame :
      (fuel : ℕ) (items : List ImageItemSerialized)
      → IsItem item
      → deserialize_loop (suc fuel) m p items
        ≡ deserialize_loop fuel m (p + length (frame item)) (items ++ (item ∷ []))
  unfolding deserialize_loop
  deserialize_loop-frame fuel items w = simp (
    ltb_true,
    load-word (length (serialize item)) (Holds-left _ _ h),
    of_bytes-to_bytes (length (serialize item)) (omega (arith, frame_bound)),
    add64-small p 8 (omega (arith, frame_bound)),
    add64-small (p + 8) (length (serialize item)) (omega (arith, frame_bound)),
    ltb-ge (limit m) (p + 8 + length (serialize item)) frame_bound,
    deserialize-serialize item fits Holds-item w,
    frame_length,
  )
    where
      ltb_true : ltb p (limit m) ≡ true
      ltb_true = lt→ltb _ _ (omega (arith, frame_bound))

      frame_length : p + length (frame item) ≡ p + 8 + length (serialize item)
      frame_length = omega (
        arith,
        length-append (to_bytes 8 (length (serialize item))) (serialize item),
        length-to_bytes 8 (length (serialize item)),
      )

deserialize_loop-frames :
    {m : Memory} (items : List ImageItemSerialized) (fuel : ℕ) {p : ℕ}
    (done : List ImageItemSerialized)
    → Fits m
    → Holds m p (frames items)
    → p + length (frames items) ≡ limit m
    → All IsItem items
    → length items < fuel
    → deserialize_loop fuel m p done ≡ ok (value (done ++ items))
deserialize_loop-frames [] zero done fits h e w f = absurd (omega arith)
deserialize_loop-frames {m} [] (suc fuel) {p} done fits h e w f =
    unfold deserialize_loop in rw (ltb-ge p (limit m) (omega (arith, e)), append-nil done) refl
deserialize_loop-frames (item ∷ items) zero done fits h e w f = absurd (omega arith)
deserialize_loop-frames {m} (item ∷ items) (suc fuel) {p} done fits h e (w, ws) f =
    deserialize_loop-frame item fits (Holds-left (frame item) (frames items) h) fuel done w
    ∙ deserialize_loop-frames items fuel (done ++ (item ∷ [])) fits
        (Holds-right (frame item) (frames items) h)
        (omega (arith, e, length-append (frame item) (frames items))) ws (omega arith)
    ∙ ap (λ l. ok (value l)) (append_assoc done (item ∷ []) items)

-- `deserialize_items` reads back every list of pages that `serialize_items` wrote, in its order,
-- from any address at which the bytes fit below 2 ^ 64, in one round for each page and one more.
pub deserialize_items-serialize_items :
    (base fuel : ℕ) (items : List ImageItemSerialized)
    → All IsItem items
    → base + length (serialize_items items) < 2 ^ 64
    → length items < fuel
    → deserialize_items fuel (record { base = base; bytes = serialize_items items })
      ≡ ok (value items)
unfolding deserialize_items
deserialize_items-serialize_items base fuel items w fits f = rw (serialize_items-frames items) (
    deserialize_loop-frames items fuel [] (rw (serialize_items-frames items) at fits)
      (Holds-whole _) refl w f)
