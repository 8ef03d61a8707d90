-- ===== src/View/Sorted.antt =====
-- Items in the order of their page numbers: what `std::sort` of `CImageView::showEvent`
-- (gui-app/src/Ui/ImageView.cpp) makes of pages with different numbers.
use sane_in_the_membrane.Common.{
  ℕ, suc, ◌<◌, ◌≤◌, ◌≡◌, refl, ap, ◌∙◌, List, [], ◌∷◌, leb, ◌==◌, if◌then◌else◌, arith, Bool-cases,
  inl, inr, ==_iff,
}
use sane_in_the_membrane.View.Container.{PageNumbers, occurrences}
use sane_in_the_membrane.View.Numbers.{IsNumberedFrom}
use sane_in_the_membrane.View.Document.{SameItems}

occurrences_self : (a : ℕ) (ids : List ℕ) → occurrences (a ∷ ids) a ≡ suc (occurrences ids a)
occurrences_self a ids = ground (arith, (==_iff a a).1 refl)

module _ (numbers : PageNumbers) where
  abbrev pub insert_item : ℕ → List ℕ → List ℕ
  insert_item a [] = a ∷ []
  insert_item a (b ∷ ids) =
      let rest = b ∷ insert_item a ids in if leb (numbers a) (numbers b) then a ∷ b ∷ ids else rest

  abbrev pub sort_items : List ℕ → List ℕ
  sort_items [] = []
  sort_items (a ∷ ids) = insert_item a (sort_items ids)

  abbrev IsRisingFrom : ℕ → List ℕ → Type 0
  IsRisingFrom n [] = Unit {0}
  IsRisingFrom n (a ∷ ids) = (n ≤ numbers a) × IsRisingFrom (numbers a) ids

  IsRisingFrom-insert :
      (n a : ℕ) (ids : List ℕ)
      → n ≤ numbers a
      → IsRisingFrom n ids
      → IsRisingFrom n (insert_item a ids)
  IsRisingFrom-insert n a [] h r = (h, tt)
  IsRisingFrom-insert n a (b ∷ ids) h r = ground (arith, IsRisingFrom-insert (numbers b) a ids)

  sort_items-IsRising : (ids : List ℕ) → IsRisingFrom 0 (sort_items ids)
  sort_items-IsRising [] = tt
  sort_items-IsRising (a ∷ ids) =
      IsRisingFrom-insert 0 a (sort_items ids) (omega arith) (sort_items-IsRising ids)

  occurrences-insert :
      (a : ℕ) (ids : List ℕ) (b : ℕ) → occurrences (insert_item a ids) b ≡ occurrences (a ∷ ids) b
  occurrences-insert a [] b = refl
  occurrences-insert a (c ∷ ids) b = ground (arith, occurrences-insert a ids b)

  occurrences-sort : (ids : List ℕ) (b : ℕ) → occurrences (sort_items ids) b ≡ occurrences ids b
  occurrences-sort [] b = refl
  occurrences-sort (a ∷ ids) b =
      occurrences-insert a (sort_items ids) b ∙ ground (arith, occurrences-sort ids b)

  -- A number of an item that occurs.
  IsRising-occurs :
      (n : ℕ) (ids : List ℕ) (a : ℕ) → IsRisingFrom n ids → 0 < occurrences ids a → n ≤ numbers a
  IsRising-occurs n [] a r h = absurd (omega (arith, h))
  IsRising-occurs n (b ∷ ids) a r h = elim (Bool-cases (b == a)) [
    | inl e ↦ omega (arith, r.0, ap numbers ((==_iff b a).0 e))
    | inr e ↦ omega (arith, r.0, IsRising-occurs (numbers b) ids a r.1 (ground arith))
  ]

  IsNumbered-occurs :
      (k : ℕ) (ids : List ℕ) (a : ℕ)
      → IsNumberedFrom k ids numbers
      → 0 < occurrences ids a
      → k ≤ numbers a
  IsNumbered-occurs k [] a n h = absurd (omega (arith, h))
  IsNumbered-occurs k (b ∷ ids) a n h = elim (Bool-cases (b == a)) [
    | inl e ↦ omega (arith, n.0, ap numbers ((==_iff b a).0 e))
    | inr e ↦ omega (arith, n.0, IsNumbered-occurs (suc k) ids a n.1 (ground arith))
  ]

  heads_same :
      (n k x p : ℕ) (xs ps : List ℕ)
      → IsRisingFrom n (x ∷ xs)
      → IsNumberedFrom k (p ∷ ps) numbers
      → ((a : ℕ) → occurrences (x ∷ xs) a ≡ occurrences (p ∷ ps) a)
      → x ≡ p
  heads_same n k x p xs ps r m h = elim (Bool-cases (x == p)) [
    | inl e ↦ (==_iff x p).0 e
    | inr e ↦
        let p_later : numbers x ≤ numbers p =
          IsRising-occurs (numbers x) xs p r.1 (ground (arith, h p, occurrences_self p ps)) in
        let x_later : suc k ≤ numbers x =
          IsNumbered-occurs (suc k) ps x m.1
            (ground (arith, h x, occurrences_self x xs, ==_iff p x, ==_iff x p)) in
        absurd (omega (arith, m.0))
  ]

  IsRising-IsNumbered :
      (n k : ℕ) (xs ps : List ℕ)
      → IsRisingFrom n xs
      → IsNumberedFrom k ps numbers
      → ((a : ℕ) → occurrences xs a ≡ occurrences ps a)
      → xs ≡ ps
  IsRising-IsNumbered n k [] [] r m h = refl
  IsRising-IsNumbered n k [] (p ∷ ps) r m h = absurd (omega (arith, h p, occurrences_self p ps))
  IsRising-IsNumbered n k (x ∷ xs) [] r m h = absurd (omega (arith, h x, occurrences_self x xs))
  IsRising-IsNumbered n k (x ∷ xs) (p ∷ ps) r m h =
      let same = heads_same n k x p xs ps r m h in
      let tails =
        IsRising-IsNumbered (numbers x) (suc k) xs ps r.1 m.1 (λ a. ground (arith, h a, same)) in
      cc (same, tails)

  -- Pages numbered from 1 are what sorting makes of any list of them.
  pub sort_items-IsNumbered :
      (ids pages : List ℕ)
      → IsNumberedFrom 1 pages numbers
      → SameItems ids pages
      → sort_items ids ≡ pages
  sort_items-IsNumbered ids pages m same =
      IsRising-IsNumbered 0 1 (sort_items ids) pages (sort_items-IsRising ids) m
        (λ a. occurrences-sort ids a ∙ same.1 a)
