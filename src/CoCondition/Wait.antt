-- ===== src/CoCondition/Wait.antt =====
-- A coroutine that waits goes to the end of the deque.
use batonlib.Base.{
  ◌≡◌, refl, ◌≢◌, ◌∙◌, true, false, List, [], ◌∷◌, ◌++◌, not-mem-cons, not-mem-append,
}
use batonlib.Int.{pos, negsuc}
use batonlib.Memory.{Ptr, null, Memory, write, write_self, write_ne}
use batonlib.Memory.Returns.{Returns}
use batonlib.Link.{IsLink}
use batonlib.Link.Fresh.{valid_kept, valid_new, fresh-ne, Kept, IsLink-kept}
use batonlib.CoCondition.{co_cond_wait}
use batonlib.CoCondition.Waiting.{IsWaiting, Waits}

module _ {m m' : Memory} {e t : Ptr} (k : Kept m m' e t) (event_free : m.events.live e ≡ false)
    (item_free : m.item_live t ≡ false) where
  IsWaiting-kept : (f u : Ptr) → IsWaiting m f u → IsWaiting m' f u
  IsWaiting-kept f u w = record {
    live = k.event_valid f w.live;
    t_item = k.t_item f (fresh-ne m.events.live f e event_free w.live) ∙ w.t_item;
    item_valid = k.item_valid u w.item_valid;
    free = k.t_link u (fresh-ne m.item_live u t item_free w.item_valid) ∙ w.free;
  }

  -- The new event waits behind the others.
  Waits-behind :
      (es ts : List Ptr) → IsWaiting m' e t → Waits m es ts → Waits m' (es ++ e ∷ []) (ts ++ t ∷ [])
  Waits-behind [] [] new w = (new, refl, refl, tt)
  Waits-behind [] (u ∷ ts) new w = absurd w
  Waits-behind (f ∷ es) [] new w = absurd w
  Waits-behind (f ∷ es) (u ∷ ts) new (here, oe, ou, rest) = (
    IsWaiting-kept f u here,
    not-mem-append f es (e ∷ []) oe
        (not-mem-cons f e [] (fresh-ne m.events.live f e event_free here.live) refl),
    not-mem-append u ts (t ∷ []) ou
        (not-mem-cons u t [] (fresh-ne m.item_live u t item_free here.item_valid) refl),
    Waits-behind es ts new rest,
  )

-- The memory at the `yield`.
module _ (m : Memory) (e t co : Ptr) where
  waiting : Memory
  waiting = record m {
    item_live = write m.item_live t true;
    next = write m.next t null;
    prev = write m.prev t null;
    t_link = write m.t_link t null;
    expire_time = write m.expire_time t 0;
    process = write m.process t null;
    arg = write m.arg t null;
    item = write (write m.item t null) t e;
    isremove = write m.isremove t false;
    events = record {
      live = write m.events.live e true;
      fd = write (write m.events.fd e (pos 0)) e (negsuc 0);
      is_timeout = write (write m.events.is_timeout e false) e false;
      co = write (write m.events.co e null) e co;
      t_item = write (write (write m.events.t_item e null) e null) e t;
    };
  }

  Kept-waiting : Kept m waiting e t
  unfolding waiting
  Kept-waiting = record {
    event_valid = λ p v. valid_kept m.events.live p e v;
    t_item = λ p ne.
        write_ne (write (write m.events.t_item e null) e null) e t p ne
        ∙ write_ne (write m.events.t_item e null) e null p ne
        ∙ write_ne m.events.t_item e null p ne;
    item_valid = λ p v. valid_kept m.item_live p t v;
    next = write_ne m.next t null;
    prev = write_ne m.prev t null;
    t_link = write_ne m.t_link t null;
    item = λ p ne. write_ne (write m.item t null) t e p ne ∙ write_ne m.item t null p ne;
    expire_time = write_ne m.expire_time t 0;
    link_live = refl;
    head = refl;
    tail = refl;
  }

  IsWaiting-waiting : e ≢ null → t ≢ null → IsWaiting waiting e t
  unfolding waiting
  IsWaiting-waiting ne nt = record {
    live = valid_new m.events.live e ne;
    t_item = write_self (write (write m.events.t_item e null) e null) e t;
    item_valid = valid_new m.item_live t nt;
    free = write_self m.t_link t null;
  }

-- `co_cond_wait`, up to its `yield`, with two new objects runs without a fault: the new event, which
-- has the coroutine, waits behind the others, and every link stands for the same items.
pub co_cond_wait_lem :
    (m : Memory) (active e t co : Ptr) (es ts : List Ptr)
    → e ≢ null
    → t ≢ null
    → m.events.live e ≡ false
    → m.item_live t ≡ false
    → Waits m es ts
    → Returns (co_cond_wait (record { co_deque = es; active_link = active }) e t co m) (λ cond m'.
      (cond ≡ record { co_deque = es ++ e ∷ []; active_link = active })
      × Waits m' (es ++ e ∷ []) (ts ++ t ∷ [])
      × (m'.events.co e ≡ co)
      × ((l : Ptr) (xs : List Ptr) → IsLink m l xs → IsLink m' l xs))
unfolding co_cond_wait waiting
co_cond_wait_lem m active e t co es ts ne nt event_free item_free w =
    let k = Kept-waiting m e t co in
    simp (valid_new m.events.live e ne, valid_new m.item_live t nt)
      (
        refl,
        Waits-behind k event_free item_free es ts (IsWaiting-waiting m e t co ne nt) w,
        write_self (write m.events.co e null) e co,
        IsLink-kept k item_free,
      )
