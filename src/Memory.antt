-- ===== src/Memory.antt =====
-- The structures of Batonlib/time_wheel.h and the event record of Batonlib/co_epoll.h, in a
-- memory that has one map for each field. Address 0 is NULL. An access through NULL or to an
-- object that is not allocated is a fault.
pub mod Returns
use batonlib.Int.{ℤ, pos}
use batonlib.Base.{
  ℕ, ◌≡◌, ◌≢◌, ◌∙◌, ==_refl, ne→==, ==→ne, Bool, true, false, ◌==◌, if◌then◌else◌, arith,
}

abbrev pub Ptr : Type 0
Ptr = ℕ

abbrev pub null : Ptr
null = 0

-- The fields of every `co_epoll_item`; `live` says which are allocated.
pub record Events : Type 0 where
  pub live : Ptr → Bool
  pub fd : Ptr → ℤ
  pub is_timeout : Ptr → Bool
  pub co : Ptr → Ptr
  pub t_item : Ptr → Ptr

-- The fields of every `time_item` and `time_link`, and the events; the first map of each group
-- says which objects of the type are allocated.
pub record Memory : Type 0 where
  pub item_live : Ptr → Bool
  pub next : Ptr → Ptr
  pub prev : Ptr → Ptr
  pub t_link : Ptr → Ptr
  pub expire_time : Ptr → ℕ
  pub process : Ptr → Ptr
  pub arg : Ptr → Ptr
  pub item : Ptr → Ptr
  pub isremove : Ptr → Bool
  pub link_live : Ptr → Bool
  pub head : Ptr → Ptr
  pub tail : Ptr → Ptr
  pub events : Events

unfoldable pub write {ℓ} : {A : Type ℓ} → (Ptr → A) → Ptr → A → Ptr → A
write f p v a = if a == p then v else f a

module _ {ℓ} {A : Type ℓ} (f : Ptr → A) (p : Ptr) (v : A) where
  pub write_self : write f p v p ≡ v
  unfolding write
  write_self = rw (==_refl p)

  pub write_ne : (a : Ptr) → a ≢ p → write f p v a ≡ f a
  unfolding write
  write_ne a h = rw (ne→== a p h)

-- A write at another place keeps what was written before.
pub write_kept {ℓ} :
    {A : Type ℓ} (f : Ptr → A) (p q : Ptr) (v w : A) → p ≢ q → write (write f p v) q w p ≡ v
write_kept f p q v w h = write_ne (write f p v) q w p h ∙ write_self f p v

pub data Run (A : Type 0) : Type 0 where
  ok : A → Memory → Run A
  fault : Run A
  out_of_fuel : Run A

abbrev pub Cmd : Type 0 → Type 0
Cmd A = Memory → Run A

abbrev pub pure : {A : Type 0} → A → Cmd A
pure = ok

module _ {A B : Type 0} where
  abbrev pub and_then : Run A → (A → Cmd B) → Run B
  and_then (ok a m) k = k a m
  and_then fault k = fault
  and_then out_of_fuel k = out_of_fuel

  infixl 5 ◌>>=◌ ◌>>◌
  abbrev pub ◌>>=◌ : Cmd A → (A → Cmd B) → Cmd B
  c >>= k = λ m. and_then (c m) k

  abbrev pub ◌>>◌ : Cmd A → Cmd B → Cmd B
  c >> d = c >>= λ _. d

-- The address is not NULL and names an allocated object.
unfoldable pub valid : (Ptr → Bool) → Ptr → Bool
valid live p = if p == null then false else live p

pub valid-ne_null : (live : Ptr → Bool) (p : Ptr) → valid live p ≡ true → (p == null) ≡ false
unfolding valid
valid-ne_null live p v = ground arith

pub valid-ne : (live : Ptr → Bool) (p : Ptr) → valid live p ≡ true → p ≢ null
valid-ne live p v = ==→ne p null (valid-ne_null live p v)

-- Reading and writing a field of a `time_item`.
abbrev pub load_item : {A : Type 0} → (Memory → Ptr → A) → Ptr → Cmd A
load_item field p m = if valid m.item_live p then ok (field m p) m else fault

abbrev pub store_item : (Memory → Memory) → Ptr → Cmd (Unit {0})
store_item put p m = if valid m.item_live p then ok tt (put m) else fault

-- The same for a `time_link`.
abbrev pub load_link : {A : Type 0} → (Memory → Ptr → A) → Ptr → Cmd A
load_link field p m = if valid m.link_live p then ok (field m p) m else fault

abbrev pub store_link : (Memory → Memory) → Ptr → Cmd (Unit {0})
store_link put p m = if valid m.link_live p then ok tt (put m) else fault

abbrev pub get_next : Ptr → Cmd Ptr
get_next = load_item (λ m. m.next)

abbrev pub get_prev : Ptr → Cmd Ptr
get_prev = load_item (λ m. m.prev)

abbrev pub get_t_link : Ptr → Cmd Ptr
get_t_link = load_item (λ m. m.t_link)

abbrev pub get_expire_time : Ptr → Cmd ℕ
get_expire_time = load_item (λ m. m.expire_time)

abbrev pub set_next : Ptr → Ptr → Cmd (Unit {0})
set_next p q = store_item (λ m. record m { next = write m.next p q }) p

abbrev pub set_prev : Ptr → Ptr → Cmd (Unit {0})
set_prev p q = store_item (λ m. record m { prev = write m.prev p q }) p

abbrev pub set_t_link : Ptr → Ptr → Cmd (Unit {0})
set_t_link p l = store_item (λ m. record m { t_link = write m.t_link p l }) p

abbrev pub get_head : Ptr → Cmd Ptr
get_head = load_link (λ m. m.head)

abbrev pub get_tail : Ptr → Cmd Ptr
get_tail = load_link (λ m. m.tail)

abbrev pub set_head : Ptr → Ptr → Cmd (Unit {0})
set_head l p = store_link (λ m. record m { head = write m.head l p }) l

abbrev pub set_tail : Ptr → Ptr → Cmd (Unit {0})
set_tail l p = store_link (λ m. record m { tail = write m.tail l p }) l

-- The same for a `co_epoll_item`.
abbrev pub load_event : {A : Type 0} → (Events → Ptr → A) → Ptr → Cmd A
load_event field p m = if valid m.events.live p then ok (field m.events p) m else fault

abbrev pub get_t_item : Ptr → Cmd Ptr
get_t_item = load_event (λ e. e.t_item)

abbrev pub get_co : Ptr → Cmd Ptr
get_co = load_event (λ e. e.co)

abbrev pub mark_timeout : Events → Ptr → Bool → Events
mark_timeout e p b = record e { is_timeout = write e.is_timeout p b }

abbrev pub set_is_timeout : Ptr → Bool → Cmd (Unit {0})
set_is_timeout p b m =
    if valid m.events.live p then ok tt (record m { events = mark_timeout m.events p b }) else fault

abbrev pub get_item : Ptr → Cmd Ptr
get_item = load_item (λ m. m.item)

abbrev pub set_isremove : Ptr → Bool → Cmd (Unit {0})
set_isremove p b = store_item (λ m. record m { isremove = write m.isremove p b }) p

abbrev pub store_event : (Events → Events) → Ptr → Cmd (Unit {0})
store_event put p m =
    if valid m.events.live p then ok tt (record m { events = put m.events }) else fault

abbrev pub set_fd : Ptr → ℤ → Cmd (Unit {0})
set_fd p fd = store_event (λ e. record e { fd = write e.fd p fd }) p

abbrev pub set_co : Ptr → Ptr → Cmd (Unit {0})
set_co p co = store_event (λ e. record e { co = write e.co p co }) p

abbrev pub set_t_item : Ptr → Ptr → Cmd (Unit {0})
set_t_item p t = store_event (λ e. record e { t_item = write e.t_item p t }) p

abbrev pub set_item : Ptr → Ptr → Cmd (Unit {0})
set_item p e = store_item (λ m. record m { item = write m.item p e }) p

abbrev pub get_is_timeout : Ptr → Cmd Bool
get_is_timeout = load_event (λ e. e.is_timeout)

-- `new co_epoll_item` at the address `p`: the fields are not initialised.
abbrev pub new_raw_event : Ptr → Cmd (Unit {0})
new_raw_event p m =
    ok tt (record m { events = record m.events { live = write m.events.live p true } })

-- `new co_epoll_item()` at the address `p`.
abbrev pub new_event : Ptr → Cmd (Unit {0})
new_event p m = ok tt (record m {
  events = record m.events {
    live = write m.events.live p true;
    fd = write m.events.fd p (pos 0);
    is_timeout = write m.events.is_timeout p false;
    co = write m.events.co p null;
    t_item = write m.events.t_item p null;
  };
})

-- The constructor of `time_item` at the address `p`.
abbrev pub new_time_item : Ptr → ℕ → Ptr → Ptr → Cmd (Unit {0})
new_time_item p ex_t func func_arg m = ok tt (record m {
  item_live = write m.item_live p true;
  next = write m.next p null;
  prev = write m.prev p null;
  t_link = write m.t_link p null;
  expire_time = write m.expire_time p ex_t;
  process = write m.process p func;
  arg = write m.arg p func_arg;
  item = write m.item p null;
  isremove = write m.isremove p false;
})

-- `delete` of each.
abbrev pub delete_event : Ptr → Cmd (Unit {0})
delete_event p = store_event (λ e. record e { live = write e.live p false }) p

abbrev pub delete_item : Ptr → Cmd (Unit {0})
delete_item p = store_item (λ m. record m { item_live = write m.item_live p false }) p

-- The constructor of `time_link` at the address `l`.
abbrev pub new_time_link : Ptr → Cmd (Unit {0})
new_time_link l m = ok tt (record m {
  link_live = write m.link_live l true;
  head = write m.head l null;
  tail = write m.tail l null;
})

abbrev pub delete_link : Ptr → Cmd (Unit {0})
delete_link l = store_link (λ m. record m { link_live = write m.link_live l false }) l
