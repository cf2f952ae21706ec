-- ===== src/Scheduler/Register/Prepared.antt =====
-- The memory in which the event and its timer have been made, and the wheel in it.
use batonlib.Base.{ℕ, ◌<◌, ◌≡◌, refl, ◌≢◌, ◌∙◌, true, false, ◌∉◌, ne_of_mem}
use batonlib.Int.{ℤ}
use batonlib.Memory.{Ptr, null, Memory, valid, write, write_self, write_ne}
use batonlib.Link.Fresh.{valid_kept, valid_new, Kept, IsLink-kept, not-mem_of_fresh}
use batonlib.TimeWheel.{TimeWheel}
use batonlib.TimeWheel.Ring.{Contents, link_at, IsWheel, Due}

-- Item `t` with the deadline `d` of the event `e` of coroutine `co`.
module _ (m : Memory) (e t co : Ptr) (fd : ℤ) (d : ℕ) where
  unfoldable pub prepared : Memory
  prepared = record m {
    item_live = write m.item_live t true;
    next = write m.next t null;
    prev = write m.prev t null;
    t_link = write m.t_link t null;
    expire_time = write m.expire_time t d;
    process = write m.process t null;
    arg = write m.arg t null;
    item = write (write m.item t null) t e;
    isremove = write m.isremove t false;
    events = record m.events {
      live = write m.events.live e true;
      fd = write m.events.fd e fd;
      is_timeout = write m.events.is_timeout e false;
      co = write m.events.co e co;
    };
  }

  pub Kept-prepared : Kept m prepared e t
  unfolding prepared
  Kept-prepared = record {
    event_valid = λ p v. valid_kept m.events.live p e v;
    t_item = λ p ne. refl;
    item_valid = λ p v. valid_kept m.item_live p t v;
    next = write_ne m.next t null;
    prev = write_ne m.prev t null;
    item = λ p ne. write_ne (write m.item t null) t e p ne ∙ write_ne m.item t null p ne;
    expire_time = write_ne m.expire_time t d;
    t_link = write_ne m.t_link t null;
    link_live = refl;
    head = refl;
    tail = refl;
  }

  -- What the new objects hold.
  pub record IsNew (m' : Memory) : Type 0 where
    pub event_valid : valid m'.events.live e ≡ true
    pub item_valid : valid m'.item_live t ≡ true
    pub expire_time : m'.expire_time t ≡ d
    pub item : m'.item t ≡ e
    pub co_of : m'.events.co e ≡ co
    pub is_timeout : m'.events.is_timeout e ≡ false

  pub prepared-IsNew : e ≢ null → t ≢ null → IsNew prepared
  unfolding prepared
  prepared-IsNew ne nt = record {
    event_valid = valid_new m.events.live e ne;
    item_valid = valid_new m.item_live t nt;
    expire_time = write_self m.expire_time t d;
    item = write_self (write m.item t null) t e;
    co_of = write_self m.events.co e co;
    is_timeout = write_self m.events.is_timeout e false;
  }

  pub prepared_free : prepared.t_link t ≡ null
  unfolding prepared
  prepared_free = write_self m.t_link t null

module _ {m m' : Memory} {e t : Ptr} (k : Kept m m' e t) (free : m.item_live t ≡ false)
    {tw : TimeWheel} {q : Contents} (is : IsWheel m tw q) where
  pub not-mem_of_new : (i : ℕ) → i < tw.w_size → t ∉ q i
  not-mem_of_new i h = not-mem_of_fresh m (link_at tw i) null (q i) t free (is.links i h).chain

  pub IsWheel-kept : IsWheel m' tw q
  IsWheel-kept = record {
    positive = is.positive;
    width = is.width;
    links = λ i h. IsLink-kept k free (link_at tw i) (q i) (is.links i h);
    distinct = is.distinct;
  }

  pub Due-kept : Due m.expire_time tw q → Due m'.expire_time tw q
  Due-kept due i a h there =
      rw (k.expire_time a (ne_of_mem a t (q i) there (not-mem_of_new i h))) (due i a h there)
