-- ===== src/TimeWheel/Remove.antt =====
-- `time_wheel::removeitem` takes an item out of the link that it stands in.
mod Cases
use batonlib.Base.{
  ◌≡◌, refl, sym, ◌∙◌, true, List, [], ◌∷◌, ◌++◌, ◌∉◌, last, first, ne_of_not-mem, not-mem_tail,
  not-mem_left, not-mem_right, not-mem-append, not-mem-cons, ne-first, ne-last, append_nil,
  last-append, last-append_cons,
}
use batonlib.Memory.{Ptr, null, Memory, valid}
use batonlib.Memory.Returns
use batonlib.Memory.Returns.{Returns}
use batonlib.Link.{Chain, IsLink}
use batonlib.Link.Frame.{Same, Same-weaken, Chain-null}
use batonlib.Link.Remove.{Chain-unlink}
use batonlib.TimeWheel.{removeitem}
use Cases.{Removed, Place, remove_alone, remove_front, remove_back, remove_middle}

-- What the chain says of an item and of the items on either side.
Chain-Place :
    (m : Memory) (l before p : Ptr) (xs ys : List Ptr)
    → valid m.link_live l ≡ true
    → Chain m l before (xs ++ p ∷ ys)
    → Place m l p (last before xs) (first ys) × (p ∉ xs) × (p ∉ ys) × Chain m l p ys
Chain-Place m l before p [] ys live (v, next, prev, t_link, o, rest) = (
  record { live = live; item_valid = v; next = next; prev = prev; t_link = t_link },
  refl,
  o,
  rest,
)
Chain-Place m l before p (x ∷ xs) ys live (v, next, prev, t_link, o, rest) =
    let (place, left, right, after) = Chain-Place m l x p xs ys live rest in
    let ne = ne_of_not-mem x p ys (not-mem_right x xs (p ∷ ys) o) in
    (place, not-mem-cons p x xs (λ e. ne (sym e)) left, right, after)

valid-last_append :
    (m : Memory) (l before x : Ptr) (xs zs : List Ptr)
    → Chain m l before (x ∷ xs ++ zs)
    → valid m.item_live (last x xs) ≡ true
valid-last_append m l before x [] zs c = c.0
valid-last_append m l before x (y ∷ xs) zs (_, _, _, _, _, c) = valid-last_append m l x y xs zs c

module _ (m : Memory) (l p : Ptr) where
  remove_at :
      (xs ys : List Ptr)
      → IsLink m l (xs ++ p ∷ ys)
      → Returns (removeitem p m) (λ _ m'.
        Removed m m' l p (last null xs) (first ys) (first (xs ++ ys)) (last null (xs ++ ys)))
  remove_at [] [] is =
      remove_alone m l p (Chain-Place m l null p [] [] is.live is.chain).0 is.head is.tail
  remove_at [] (y ∷ ys) is =
      let (place, _, out, after) = Chain-Place m l null p [] (y ∷ ys) is.live is.chain in
      remove_front m l p y (last y ys) place is.head is.tail (ne-last p y ys out)
        (ne_of_not-mem p y ys out) after.0
  remove_at (x ∷ xs) [] is =
      let (place, out, _, _) = Chain-Place m l null p (x ∷ xs) [] is.live is.chain in
      rw append_nil (
        remove_back m l p (last x xs) x place is.head (is.tail ∙ last-append x p xs)
          (ne_of_not-mem p x xs out) (ne-last p x xs out)
          (valid-last_append m l null x xs (p ∷ []) is.chain))
  remove_at (x ∷ xs) (y ∷ ys) is =
      let (place, out, right, after) = Chain-Place m l null p (x ∷ xs) (y ∷ ys) is.live is.chain in
      rw last-append_cons (
        remove_middle m l p (last x xs) y x (last y ys) place is.head
          (is.tail ∙ last-append_cons x p xs (y ∷ ys)) (ne_of_not-mem p x xs out)
          (ne-last p y ys right) (ne-last p x xs out) (ne_of_not-mem p y ys right)
          (valid-last_append m l null x xs (p ∷ y ∷ ys) is.chain) after.0)

-- What `removeitem` leaves of a link that held `xs ++ p ∷ ys`.
abbrev pub Unchained : Memory → (l p : Ptr) → (xs ys : List Ptr) → Memory → Type 0
Unchained m l p xs ys m' =
    IsLink m' l (xs ++ ys)
    × Same m m' (l ∷ []) (null ∷ xs ++ p ∷ ys)
    × (m'.next p ≡ null)
    × (m'.prev p ≡ null)
    × (m'.t_link p ≡ null)

not-mem_ends :
    (a p : Ptr) (xs ys : List Ptr) → a ∉ null ∷ xs ++ p ∷ ys → a ∉ last null xs ∷ p ∷ first ys ∷ []
not-mem_ends a p xs ys out =
    let nn = ne_of_not-mem a null (xs ++ p ∷ ys) out in
    let rest = not-mem_tail a null (xs ++ p ∷ ys) out in
    let right = not-mem_right a xs (p ∷ ys) rest in
    not-mem-cons a (last null xs) (p ∷ first ys ∷ [])
      (ne-last a null xs (not-mem-cons a null xs nn (not-mem_left a xs (p ∷ ys) rest)))
      (not-mem-cons a p (first ys ∷ []) (ne_of_not-mem a p ys right)
        (not-mem-cons a (first ys) [] (ne-first a ys nn (not-mem_tail a p ys right)) refl))

-- `removeitem` of an item at any place of a link runs without a fault: the link then stands for the
-- items before it followed by those behind it, the item's own pointers are NULL, and other links and
-- items keep their chaining.
pub removeitem_lem :
    (m : Memory) (l p : Ptr) (xs ys : List Ptr)
    → IsLink m l (xs ++ p ∷ ys)
    → Returns (removeitem p m) (λ _. Unchained m l p xs ys)
removeitem_lem m l p xs ys is =
    Returns.mono (removeitem p m) _ _ (remove_at m l p xs ys is) λ _ m' r.
      let chain =
        Chain-unlink l p null xs ys r.unlinked (Chain-null m l null _ is.chain) is.chain in
      (
        record { live = rw r.same.link_live is.live; head = r.head; tail = r.tail; chain = chain },
        Same-weaken _ r.same (λ a out. not-mem_ends a p xs ys out),
        r.next,
        r.prev,
        r.t_link,
      )
