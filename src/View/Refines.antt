-- ===== src/View/Refines.antt =====
-- Edits of a container do what they do to the document that it stands for.
use sane_in_the_membrane.Common.{
  ℕ, ◌+◌, ◌^◌, ◌<◌, ◌≡◌, ap, sym, ◌∙◌, Bool, true, false, List, [], ◌∷◌, ◌++◌, length, arith,
  length-append, append_assoc,
}
use mathlib.Core.Path.{subst}
use sane_in_the_membrane.Common.Exec.{ok, Returns, Returns-bind, Returns-ok}
use sane_in_the_membrane.View.Layout.{BoxLayout, erase}
use sane_in_the_membrane.View.Container.{
  Container, occurrences, MoveDirection, left, right, add_image, remove_image, move_image,
}
use sane_in_the_membrane.View.Numbers.{
  IsNumberedFrom, IsAbsent, IsAbsent-below, IsAbsent-above, erase-middle, IsNumberedFrom-left,
  IsNumberedFrom-right,
}
use sane_in_the_membrane.View.Pages.{swapped, move_image-neighbours}
use sane_in_the_membrane.View.Edit.{
  IsShowing, move_image-ends, add_image-IsShowing, remove_image-IsShowing,
}
use sane_in_the_membrane.View.Document.{
  Edit, add, remove, move, edit, edit_all, PageList, move_right, move_left, move_page, apply,
  apply_all, has_page, Allowed, AllowedAll, SameItems, InOrder, Implements,
}
use sane_in_the_membrane.View.Positions.{
  At, has_page-At, move_right-neighbours, move_right-end, move_left-neighbours, move_left-absent,
  snoc,
}

occurrences-append :
    (xs ys : List ℕ) (a : ℕ) → occurrences (xs ++ ys) a ≡ occurrences xs a + occurrences ys a
occurrences-append [] ys a = omega arith
occurrences-append (x ∷ xs) ys a = ground (arith, occurrences-append xs ys a)

occurrences-swap :
    (before after : List ℕ) (x y a : ℕ)
    → occurrences (before ++ (x ∷ y ∷ after)) a ≡ occurrences (before ++ (y ∷ x ∷ after)) a
occurrences-swap [] after x y a = ground arith
occurrences-swap (b ∷ before) after x y a = ground (arith, occurrences-swap before after x y a)

SameItems-same : (items pages : List ℕ) → items ≡ pages → SameItems items pages
SameItems-same items pages e = (ap length e, λ a. ap (λ p. occurrences p a) e)

pub SameItems-InOrder :
    (moved : Bool) (items pages : List ℕ) → InOrder moved items pages → SameItems items pages
SameItems-InOrder true items pages h = h
SameItems-InOrder false items pages h = SameItems-same items pages h

InOrder-same : (moved : Bool) (items pages : List ℕ) → items ≡ pages → InOrder moved items pages
InOrder-same true items pages e = SameItems-same items pages e
InOrder-same false items pages e = e

InOrder-unmoved :
    (moved : Bool) (items pages : List ℕ)
    → moved ≡ false
    → InOrder moved items pages
    → items ≡ pages
InOrder-unmoved true items pages m h = cc
InOrder-unmoved false items pages m h = h

InOrder-append :
    (moved : Bool) (items pages : List ℕ) (x : ℕ)
    → InOrder moved items pages
    → InOrder moved (items ++ (x ∷ [])) (pages ++ (x ∷ []))
InOrder-append true items pages x h = (
  omega (arith, h.0, length-append items (x ∷ []), length-append pages (x ∷ [])),
  λ a.
      omega
        (arith, h.1 a, occurrences-append items (x ∷ []) a, occurrences-append pages (x ∷ []) a),
)
InOrder-append false items pages x h = ap (λ xs. xs ++ (x ∷ [])) h

module _ (q : BoxLayout) (c : Container q) (d : PageList) (i : Implements q c d)
    (small : length d.pages + 3 < 2 ^ 64) where
  showing : {pages : List ℕ} → d.pages ≡ pages → IsShowing q c pages
  showing {pages} e = (i.shown ∙ e, subst (λ p. IsNumberedFrom 1 p c.numbers) e i.numbered)

  same_items : SameItems c.items d.pages
  same_items = SameItems-InOrder d.moved c.items d.pages i.kept

  -- What a move must show.
  moved_to :
      (x : ℕ) (direction : MoveDirection) (c' : Container q)
      → move_image q c x direction ≡ ok c'
      → IsShowing q c' (move_page direction x d.pages)
      → SameItems c'.items (move_page direction x d.pages)
      → Returns (λ c'. Implements q c' (apply (move x direction) d)) (move_image q c x direction)
  moved_to x direction c' e s l = rw e (record { shown = s.0; numbered = s.1; kept = l })

  add-Implements : (x : ℕ) → IsAbsent x d.pages → Implements q (add_image q c x) (apply (add x) d)
  add-Implements x absent =
      let (shown, numbered, items) =
        add_image-IsShowing q c d.pages x (i.shown, i.numbered) same_items.0 absent in
      record {
        shown = shown;
        numbered = numbered;
        kept =
            subst (λ xs. InOrder d.moved xs (d.pages ++ (x ∷ []))) (sym items)
              (InOrder-append d.moved c.items d.pages x i.kept);
      }

  length-split :
      (before after : List ℕ)
      → d.pages ≡ before ++ after
      → length before + length after ≡ length d.pages
  length-split before after e = omega (arith, ap length e, length-append before after)

  -- Where a page of the document stands, it stands once.
  IsAbsent-after :
      (before after : List ℕ) (x : ℕ) → d.pages ≡ before ++ (x ∷ after) → IsAbsent x after
  IsAbsent-after before after x e =
      let n = IsNumberedFrom-right 1 before (x ∷ after) c.numbers (showing e).1 in
      IsAbsent-below _ after c.numbers x n.1 (omega (arith, n.0))

  remove-Implements :
      (x : ℕ)
      → has_page d.pages x ≡ true
      → d.moved ≡ false
      → Returns (λ c'. Implements q c' (apply (remove x) d)) (remove_image q c x)
  remove-Implements x there unmoved =
      let a = has_page-At d.pages x there in
      let in_order = InOrder-unmoved d.moved c.items d.pages unmoved i.kept ∙ a.splits in
      let (c', e, shows, items) =
        remove_image-IsShowing q c a.before a.after x (showing a.splits) in_order
          (omega (arith, small, length-split a.before (x ∷ a.after) a.splits)) in
      let erased : a.before ++ a.after ≡ erase d.pages x = sym (
        ap (λ p. erase p x) a.splits
        ∙ erase-middle a.before a.after x a.first (IsAbsent-after a.before a.after x a.splits)) in
      rw e (record {
        shown = shows.0 ∙ erased;
        numbered = subst (λ p. IsNumberedFrom 1 p c'.numbers) erased shows.1;
        kept = InOrder-same d.moved c'.items (erase d.pages x) (items ∙ erased);
      })

  -- Moves between neighbours and at the ends.
  exchanged :
      (before after : List ℕ) (x y z : ℕ) (direction : MoveDirection)
      (e : d.pages ≡ before ++ (x ∷ y ∷ after))
      → move_image q c z direction ≡ ok (swapped q c before after x y (showing e).0 (showing e).1)
      → before ++ (y ∷ x ∷ after) ≡ move_page direction z d.pages
      → Returns (λ c'. Implements q c' (apply (move z direction) d)) (move_image q c z direction)
  exchanged before after x y z direction e moves to =
      let fits : 2 + length before + length after < 2 ^ 64 =
        omega (arith, small, length-split before (x ∷ y ∷ after) e) in
      let (_, _, shows, numbered, _) =
        move_image-neighbours q c before after x y (showing e).0 (showing e).1 fits in
      moved_to z direction (swapped q c before after x y (showing e).0 (showing e).1) moves
        (
          shows ∙ to,
          subst
              (λ p.
                IsNumberedFrom 1 p
                  (swapped q c before after x y (showing e).0 (showing e).1).numbers)
              to numbered,
        )
        (subst (SameItems c.items) to (
          omega (
            arith,
            same_items.0,
            length-split before (x ∷ y ∷ after) e,
            length-append before (y ∷ x ∷ after),
          ),
          λ a. same_items.1 a ∙ ap (λ p. occurrences p a) e ∙ occurrences-swap before after x y a,
        ))

  right-Implements :
      (before after : List ℕ) (x : ℕ)
      → d.pages ≡ before ++ (x ∷ after)
      → IsAbsent x before
      → Returns (λ c'. Implements q c' (apply (move x right) d)) (move_image q c x right)
  right-Implements before [] x e first =
      let same = e ∙ sym (ap (move_right x) e ∙ move_right-end before x first) in
      moved_to x right c
        (move_image-ends q c right before x (omega (arith, small, length-split before (x ∷ []) e))
          (showing e))
        (showing same) (subst (SameItems c.items) same same_items)
  right-Implements before (y ∷ after) x e first =
      exchanged before after x y x right e
        (move_image-neighbours q c before after x y (showing e).0 (showing e).1
          (omega (arith, small, length-split before (x ∷ y ∷ after) e))).0
        (sym (ap (move_right x) e ∙ move_right-neighbours before after x y first))

  left-Implements :
      (before after : List ℕ) (x : ℕ)
      → d.pages ≡ before ++ (x ∷ after)
      → Returns (λ c'. Implements q c' (apply (move x left) d)) (move_image q c x left)
  left-Implements [] after x e =
      let same =
        e ∙ sym (ap (move_left x) e ∙ move_left-absent x x after (IsAbsent-after [] after x e)) in
      moved_to x left c
        (move_image-ends q c left after x (omega (arith, small, length-split [] (x ∷ after) e))
          (showing e))
        (showing same) (subst (SameItems c.items) same same_items)
  left-Implements (b ∷ before) after x e =
      let s = snoc b before in
      let e' : d.pages ≡ s.init ++ (s.last ∷ x ∷ after) =
        e ∙ ap (λ p. p ++ (x ∷ after)) s.joins ∙ append_assoc s.init (s.last ∷ []) (x ∷ after) in
      let n = IsNumberedFrom-right 1 s.init (s.last ∷ x ∷ after) c.numbers (showing e').1 in
      let first =
        IsAbsent-above 1 s.init c.numbers x
          (IsNumberedFrom-left 1 s.init (s.last ∷ x ∷ after) c.numbers (showing e').1)
          (omega (arith, n.1.0)) in
      exchanged s.init after s.last x x left e'
        (move_image-neighbours q c s.init after s.last x (showing e').0 (showing e').1
          (omega (arith, small, length-split s.init (s.last ∷ x ∷ after) e'))).1
        (sym (
          ap (move_left x) e'
          ∙ move_left-neighbours s.init after x s.last first
              (λ same. omega (arith, n.0, n.1.0, ap c.numbers same))))

  move-Implements :
      (x : ℕ) (direction : MoveDirection)
      → At x d.pages
      → Returns (λ c'. Implements q c' (apply (move x direction) d)) (move_image q c x direction)
  move-Implements x left a = left-Implements a.before a.after x a.splits
  move-Implements x right a = right-Implements a.before a.after x a.splits a.first

  pub edit-Implements :
      (e : Edit) → Allowed e d → Returns (λ c'. Implements q c' (apply e d)) (edit q e c)
  unfolding edit
  edit-Implements (add x) a = add-Implements x a
  edit-Implements (remove x) a = remove-Implements x a.0 a.1
  edit-Implements (move x direction) a = move-Implements x direction (has_page-At d.pages x a)

edit_all-Returns :
    (q : BoxLayout) (es : List Edit) (c : Container q) (d : PageList)
    → AllowedAll es d
    → Implements q c d
    → Returns (λ c'. Implements q c' (apply_all es d)) (edit_all q es c)
unfolding edit_all
edit_all-Returns q [] c d a i = i
edit_all-Returns q (e ∷ es) c d a i =
    Returns-bind (λ c'. Implements q c' (apply_all (e ∷ es) d)) (edit q e c)
      (λ c'. edit_all q es c') (edit-Implements q c d i a.1 e a.0)
      (λ c' i'. edit_all-Returns q es c' (apply e d) a.2 i')

-- A container is a refinement of the document: if each edit of a sequence is allowed in the document
-- that the edits before it make, the container makes them all without a fault and in the end shows
-- the document that they make, numbered from 1.
pub edit_all-Implements :
    (q : BoxLayout) (es : List Edit) (c : Container q) (d : PageList)
    → AllowedAll es d
    → Implements q c d
    → (c' : Container q) × (edit_all q es c ≡ ok c') × Implements q c' (apply_all es d)
edit_all-Implements q es c d a i =
    Returns-ok (λ c'. Implements q c' (apply_all es d)) (edit_all q es c)
      (edit_all-Returns q es c d a i)
