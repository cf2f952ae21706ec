-- ===== src/Link/Fresh.antt =====
-- New objects leave the links as they are.
use batonlib.Base.{
  Bool, ◌≡◌, refl, ◌≢◌, ◌∙◌, true, false, List, [], ◌∷◌, ◌∉◌, sym, not-mem-cons, arith,
}
use batonlib.Memory.{Ptr, null, Memory, valid, write}
use batonlib.Link.{Chain, IsLink}

-- What is allocated stays so when something else is.
pub valid_kept :
    (live : Ptr → Bool) (p q : Ptr) → valid live p ≡ true → valid (write live q true) p ≡ true
unfolding valid write
valid_kept live p q v = ground arith

pub valid_new : (live : Ptr → Bool) (p : Ptr) → p ≢ null → valid (write live p true) p ≡ true
unfolding valid write
valid_new live p ne = ground arith

-- What is not allocated differs from what is.
pub fresh-ne : (live : Ptr → Bool) (p q : Ptr) → live q ≡ false → valid live p ≡ true → p ≢ q
unfolding valid
fresh-ne live p q free v = λ e. let v' : valid live q ≡ true = rw e at v in ground arith

-- What the making of a new event and a new item leaves alone:
-- all but the event `e` and the item `t`.
pub record Kept (m m' : Memory) (e t : Ptr) : Type 0 where
  pub event_valid : (p : Ptr) → valid m.events.live p ≡ true → valid m'.events.live p ≡ true
  pub t_item : (p : Ptr) → p ≢ e → m'.events.t_item p ≡ m.events.t_item p
  pub item_valid : (p : Ptr) → valid m.item_live p ≡ true → valid m'.item_live p ≡ true
  pub next : (p : Ptr) → p ≢ t → m'.next p ≡ m.next p
  pub prev : (p : Ptr) → p ≢ t → m'.prev p ≡ m.prev p
  pub item : (p : Ptr) → p ≢ t → m'.item p ≡ m.item p
  pub expire_time : (p : Ptr) → p ≢ t → m'.expire_time p ≡ m.expire_time p
  pub t_link : (p : Ptr) → p ≢ t → m'.t_link p ≡ m.t_link p
  pub link_live : m'.link_live ≡ m.link_live
  pub head : m'.head ≡ m.head
  pub tail : m'.tail ≡ m.tail

module _ {m m' : Memory} {e t : Ptr} (k : Kept m m' e t) (item_free : m.item_live t ≡ false) where
  Chain-kept : (l before : Ptr) (xs : List Ptr) → Chain m l before xs → Chain m' l before xs
  Chain-kept l before [] c = tt
  Chain-kept l before (x ∷ xs) (v, next, prev, t_link, o, rest) =
      let ne = fresh-ne m.item_live x t item_free v in
      (
        k.item_valid x v,
        k.next x ne ∙ next,
        k.prev x ne ∙ prev,
        k.t_link x ne ∙ t_link,
        o,
        Chain-kept l x xs rest,
      )

  pub IsLink-kept : (l : Ptr) (xs : List Ptr) → IsLink m l xs → IsLink m' l xs
  IsLink-kept l xs is = record {
    live = rw k.link_live is.live;
    head = rw k.head is.head;
    tail = rw k.tail is.tail;
    chain = Chain-kept l null xs is.chain;
  }

-- An item that is not allocated is on no chain.
pub not-mem_of_fresh :
    (m : Memory) (l before : Ptr) (xs : List Ptr) (t : Ptr)
    → m.item_live t ≡ false
    → Chain m l before xs
    → t ∉ xs
not-mem_of_fresh m l before [] t free c = refl
not-mem_of_fresh m l before (x ∷ xs) t free (v, _, _, _, _, rest) =
    not-mem-cons t x xs (λ k. fresh-ne m.item_live x t free v (sym k))
      (not-mem_of_fresh m l x xs t free rest)
