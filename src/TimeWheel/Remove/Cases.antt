-- ===== src/TimeWheel/Remove/Cases.antt =====
-- `time_wheel::removeitem` on its four paths: the item alone on its link, first, last, between two.
use batonlib.Base.{
  ◌≡◌, refl, ◌≢◌, true, [], ◌∷◌, arith, ==_refl, ne→==, ne_of_not-mem, not-mem_tail,
}
use batonlib.Memory.{Ptr, null, Memory, valid, valid-ne_null, write, write_self, write_ne}
use batonlib.Memory.Returns.{Returns}
use batonlib.Link.Frame.{Same, Same-rechain, rechain}
use batonlib.Link.Remove.{Unlinked}
use batonlib.TimeWheel.{removeitem}

-- What `removeitem` leaves: the neighbours joined, the ends of the link, and the item unchained.
pub record Removed (m m' : Memory) (l p t y h k : Ptr) : Type 0 where
  pub unlinked : Unlinked m m' p t y
  pub head : m'.head l ≡ h
  pub tail : m'.tail l ≡ k
  pub next : m'.next p ≡ null
  pub prev : m'.prev p ≡ null
  pub t_link : m'.t_link p ≡ null
  pub same : Same m m' (l ∷ []) (t ∷ p ∷ y ∷ [])

-- What the item's place says before the call.
pub record Place (m : Memory) (l p t y : Ptr) : Type 0 where
  pub live : valid m.link_live l ≡ true
  pub item_valid : valid m.item_live p ≡ true
  pub next : m.next p ≡ y
  pub prev : m.prev p ≡ t
  pub t_link : m.t_link p ≡ l

-- The same for a memory that is given by its new chaining.
Removed-rechain :
    {m : Memory} (l p t y : Ptr) {h k : Ptr} {hd tl nx pr kl : Ptr → Ptr}
    → hd l ≡ h
    → tl l ≡ k
    → nx p ≡ null
    → pr p ≡ null
    → kl p ≡ null
    → (t ≢ null → nx t ≡ y)
    → (y ≢ null → pr y ≡ t)
    → ((a : Ptr) → a ≢ p → a ≢ t → nx a ≡ m.next a)
    → ((a : Ptr) → a ≢ p → a ≢ y → pr a ≡ m.prev a)
    → ((a : Ptr) → a ≢ p → kl a ≡ m.t_link a)
    → ((a : Ptr) → a ≢ l → (hd a ≡ m.head a) × (tl a ≡ m.tail a))
    → Removed m (rechain m hd tl nx pr kl) l p t y h k
Removed-rechain l p t y h k n r u before after nexts prevs links ends = record {
  unlinked = record {
    item_live = refl;
    next_before = before;
    prev_after = after;
    next = nexts;
    prev = prevs;
    t_link = links;
  };
  head = h;
  tail = k;
  next = n;
  prev = r;
  t_link = u;
  same =
      Same-rechain (λ a out. ends a (ne_of_not-mem a l [] out))
        λ a out.
          let nt = ne_of_not-mem a t (p ∷ y ∷ []) out in
          let rest = not-mem_tail a t (p ∷ y ∷ []) out in
          let np = ne_of_not-mem a p (y ∷ []) rest in
          let ny = ne_of_not-mem a y [] (not-mem_tail a p (y ∷ []) rest) in
          (nexts a np nt, prevs a np ny, links a np);
}

module _ {m : Memory} (l p : Ptr) where
  Removed-alone :
      Removed m
        (rechain m
          (write m.head l null)
          (write m.tail l null)
          (write m.next p null)
          (write m.prev p null)
          (write m.t_link p null))
        l
        p
        null
        null
        null
        null
  unfolding write
  Removed-alone =
      Removed-rechain l p null null (ground arith) (ground arith) (ground arith) (ground arith)
        (ground arith) (λ h. absurd (h refl)) (λ h. absurd (h refl)) (λ a h k. ground arith)
        (λ a h k. ground arith) (λ a h. ground arith) (λ a h. ground arith)

  Removed-front :
      (y : Ptr) {k : Ptr}
      → m.tail l ≡ k
      → p ≢ y
      → Removed m
          (rechain m
            (write m.head l y)
            m.tail
            (write m.next p null)
            (write (write (write m.prev y null) y null) p null)
            (write m.t_link p null))
          l
          p
          null
          y
          y
          k
  unfolding write
  Removed-front y tail py =
      Removed-rechain l p null y (ground arith) tail (ground arith) (ground arith) (ground arith)
        (λ h. absurd (h refl)) (λ h. ground arith) (λ a h k. ground arith) (λ a h k. ground arith)
        (λ a h. ground arith) (λ a h. (ground arith, refl))

  Removed-back :
      (t : Ptr) {h : Ptr}
      → m.head l ≡ h
      → p ≢ t
      → Removed m
          (rechain m m.head
            (write m.tail l t)
            (write (write (write m.next t null) t null) p null)
            (write m.prev p null)
            (write m.t_link p null))
          l
          p
          t
          null
          h
          t
  unfolding write
  Removed-back t head pt =
      Removed-rechain l p t null head (ground arith) (ground arith) (ground arith) (ground arith)
        (λ h. ground arith) (λ h. absurd (h refl)) (λ a h k. ground arith) (λ a h k. ground arith)
        (λ a h. ground arith) (λ a h. (refl, ground arith))

  Removed-middle :
      (t y : Ptr) {h k : Ptr}
      → m.head l ≡ h
      → m.tail l ≡ k
      → p ≢ t
      → p ≢ y
      → Removed m
          (rechain m m.head m.tail
            (write (write m.next t y) p null)
            (write (write m.prev y t) p null)
            (write m.t_link p null))
          l
          p
          t
          y
          h
          k
  unfolding write
  Removed-middle t y head tail pt py =
      Removed-rechain l p t y head tail (ground arith) (ground arith) (ground arith)
        (λ h. ground arith) (λ h. ground arith) (λ a h k. ground arith) (λ a h k. ground arith)
        (λ a h. ground arith) (λ a h. (refl, refl))

pub remove_alone :
    (m : Memory) (l p : Ptr)
    → Place m l p null null
    → m.head l ≡ p
    → m.tail l ≡ p
    → Returns (removeitem p m) (λ _ m'. Removed m m' l p null null null null)
unfolding removeitem
remove_alone m l p e head tail =
    simp
      (
        e.item_valid,
        e.t_link,
        e.live,
        e.next,
        e.prev,
        head,
        tail,
        ==_refl p,
        write_self m.head l,
        write_self m.tail l,
      )
      (Removed-alone l p)

pub remove_front :
    (m : Memory) (l p y k : Ptr)
    → Place m l p null y
    → m.head l ≡ p
    → m.tail l ≡ k
    → p ≢ k
    → p ≢ y
    → valid m.item_live y ≡ true
    → Returns (removeitem p m) (λ _ m'. Removed m m' l p null y y k)
unfolding removeitem
remove_front m l p y k e head tail pk py v =
    simp
      (
        e.item_valid,
        e.t_link,
        e.live,
        e.next,
        e.prev,
        head,
        tail,
        ==_refl p,
        ne→== p k pk,
        write_self m.head l,
        v,
        valid-ne_null m.item_live y v,
        write_ne m.prev y null p py,
      )
      (Removed-front l p y tail py)

pub remove_back :
    (m : Memory) (l p t h : Ptr)
    → Place m l p t null
    → m.head l ≡ h
    → m.tail l ≡ p
    → p ≢ h
    → p ≢ t
    → valid m.item_live t ≡ true
    → Returns (removeitem p m) (λ _ m'. Removed m m' l p t null h t)
unfolding removeitem
remove_back m l p t h e head tail ph pt v =
    simp
      (
        e.item_valid,
        e.t_link,
        e.live,
        e.next,
        e.prev,
        head,
        tail,
        ==_refl p,
        ne→== p h ph,
        write_self m.tail l,
        v,
        valid-ne_null m.item_live t v,
      )
      (Removed-back l p t head pt)

pub remove_middle :
    (m : Memory) (l p t y h k : Ptr)
    → Place m l p t y
    → m.head l ≡ h
    → m.tail l ≡ k
    → p ≢ h
    → p ≢ k
    → p ≢ t
    → p ≢ y
    → valid m.item_live t ≡ true
    → valid m.item_live y ≡ true
    → Returns (removeitem p m) (λ _ m'. Removed m m' l p t y h k)
unfolding removeitem
remove_middle m l p t y h k e head tail ph pk pt py vt vy =
    simp
      (
        e.item_valid,
        e.t_link,
        e.live,
        e.next,
        e.prev,
        head,
        tail,
        ne→== p h ph,
        ne→== p k pk,
        vt,
        vy,
        valid-ne_null m.item_live t vt,
        write_ne m.next t y p pt,
      )
      (Removed-middle l p t y head tail pt py)
