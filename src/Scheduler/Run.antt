-- ===== src/Scheduler/Run.antt =====
-- The head of the active link is taken off before its coroutine is resumed.
pub mod All
use batonlib.Base.{
  ◌≡◌, refl, ◌≢◌, sym, ◌∙◌, List, [], ◌∷◌, last, ne→==, ==_refl, ne_of_mem, ne_of_not-mem,
  not-mem_tail, ne-last,
}
use batonlib.Memory.{Ptr, null, Memory, valid-ne_null, write, write_self, write_ne}
use batonlib.Memory.Returns.{Returns}
use batonlib.Link.{IsLink}
use batonlib.Link.Frame.{Same, Same-rechain, Chain-agree, rechain}
use batonlib.Scheduler.{pop_active}

-- The link without its first item, whose pointers are NULL.
pub record Popped (m m' : Memory) (active x : Ptr) (xs : List Ptr) : Type 0 where
  pub link : IsLink m' active xs
  pub next : m'.next x ≡ null
  pub prev : m'.prev x ≡ null
  pub t_link : m'.t_link x ≡ null
  pub same : Same m m' (active ∷ []) (x ∷ xs)

pop_alone :
    (m : Memory) (active x : Ptr)
    → IsLink m active (x ∷ [])
    → Returns (pop_active active x m) (λ _ m'. Popped m m' active x [])
unfolding pop_active
pop_alone m active x is =
    simp (is.live, is.tail, ==_refl x, is.chain.0, write_self m.head active null)
      (record {
        link = record {
          live = is.live;
          head = write_self m.head active null;
          tail = write_self m.tail active null;
          chain = tt;
        };
        next = write_self m.next x null;
        prev = write_self m.prev x null;
        t_link = write_self m.t_link x null;
        same =
            Same-rechain
              (λ l out.
                let ne = ne_of_not-mem l active [] out in
                (write_ne m.head active null l ne, write_ne m.tail active null l ne))
              (λ a out.
                let ne = ne_of_not-mem a x [] out in
                (
                  write_ne m.next x null a ne,
                  write_ne m.prev x null a ne,
                  write_ne m.t_link x null a ne,
                ));
      })

popped : Memory → (active x y : Ptr) → Memory
popped m active x y =
    rechain m (write m.head active y) m.tail (write m.next x null)
      (write (write m.prev x null) y null) (write m.t_link x null)

pop_others :
    (m : Memory) (active x y : Ptr) (ys : List Ptr)
    → IsLink m active (x ∷ y ∷ ys)
    → Returns (pop_active active x m) (λ _ m'. Popped m m' active x (y ∷ ys))
unfolding pop_active popped
pop_others m active x y ys is =
    let (v, next, prev, t_link, o, (vy, nexty, prevy, t_linky, oy, rest)) = is.chain in
    let nx : x ≢ y = ne_of_not-mem x y ys o in
    let nl = ne-last x y ys o in
    simp
      (
        is.live,
        is.tail,
        ne→== x (last y ys) nl,
        v,
        next,
        vy,
        write_self m.head active y,
        valid-ne_null m.item_live y vy,
      )
      (record {
        link = record {
          live = is.live;
          head = write_self m.head active y;
          tail = is.tail;
          chain = (
            vy,
            write_ne m.next x null y (λ e. nx (sym e)) ∙ nexty,
            write_self (write m.prev x null) y null,
            write_ne m.t_link x null y (λ e. nx (sym e)) ∙ t_linky,
            oy,
            Chain-agree m (popped m active x y) active y ys refl
                (λ a h.
                  let ax = ne_of_mem a x ys h (not-mem_tail x y ys o) in
                  let ay = ne_of_mem a y ys h oy in
                  (
                    write_ne m.next x null a ax,
                    write_ne (write m.prev x null) y null a ay ∙ write_ne m.prev x null a ax,
                    write_ne m.t_link x null a ax,
                  ))
                rest,
          );
        };
        next = write_self m.next x null;
        prev = write_ne (write m.prev x null) y null x nx ∙ write_self m.prev x null;
        t_link = write_self m.t_link x null;
        same =
            Same-rechain
              (λ l out. (write_ne m.head active y l (ne_of_not-mem l active [] out), refl))
              (λ a out.
                let ax = ne_of_not-mem a x (y ∷ ys) out in
                let ay = ne_of_not-mem a y ys (not-mem_tail a x (y ∷ ys) out) in
                (
                  write_ne m.next x null a ax,
                  write_ne (write m.prev x null) y null a ay ∙ write_ne m.prev x null a ax,
                  write_ne m.t_link x null a ax,
                ));
      })

-- Taking the first item off a link runs without a fault: the link then stands for the items behind
-- it, the item's own pointers are NULL, and other links and items keep their chaining.
pub pop_active_lem :
    (m : Memory) (active x : Ptr) (xs : List Ptr)
    → IsLink m active (x ∷ xs)
    → Returns (pop_active active x m) (λ _ m'. Popped m m' active x xs)
pop_active_lem m active x [] is = pop_alone m active x is
pop_active_lem m active x (y ∷ ys) is = pop_others m active x y ys is
