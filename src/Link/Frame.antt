-- ===== src/Link/Frame.antt =====
-- What a command leaves alone, and the links that survive it.
use batonlib.Base.{
  Bool, ◌≡◌, refl, ◌≢◌, ◌∙◌, true, List, [], ◌∷◌, ◌∈◌, ◌∉◌, last, has, arith, Bool-cases, inl, inr,
}
use batonlib.Memory.{Ptr, null, Memory, valid, valid-ne_null}
use batonlib.Link.{Chain, IsLink}

-- `m'` differs from `m` at most in the ends of the links `ls` and the chaining of the items `xs`.
pub record Same (m m' : Memory) (ls xs : List Ptr) : Type 0 where
  pub item_live : m'.item_live ≡ m.item_live
  pub expire_time : m'.expire_time ≡ m.expire_time
  pub item : m'.item ≡ m.item
  pub events : m'.events ≡ m.events
  pub link_live : m'.link_live ≡ m.link_live
  pub head : (l : Ptr) → l ∉ ls → m'.head l ≡ m.head l
  pub tail : (l : Ptr) → l ∉ ls → m'.tail l ≡ m.tail l
  pub next : (a : Ptr) → a ∉ xs → m'.next a ≡ m.next a
  pub prev : (a : Ptr) → a ∉ xs → m'.prev a ≡ m.prev a
  pub t_link : (a : Ptr) → a ∉ xs → m'.t_link a ≡ m.t_link a

pub Same-refl : (m : Memory) (ls xs : List Ptr) → Same m m ls xs
Same-refl m ls xs = record {
  item_live = refl;
  expire_time = refl;
  item = refl;
  events = refl;
  link_live = refl;
  head = λ l h. refl;
  tail = λ l h. refl;
  next = λ a h. refl;
  prev = λ a h. refl;
  t_link = λ a h. refl;
}

-- The mark of an item that left the wheel is part of no chain.
pub Same-isremove : (m : Memory) (f : Ptr → Bool) → Same m (record m { isremove = f }) [] []
Same-isremove m f = record {
  item_live = refl;
  expire_time = refl;
  item = refl;
  events = refl;
  link_live = refl;
  head = λ l h. refl;
  tail = λ l h. refl;
  next = λ a h. refl;
  prev = λ a h. refl;
  t_link = λ a h. refl;
}

-- A memory with other links and another chaining.
abbrev pub rechain : Memory → (head tail next prev t_link : Ptr → Ptr) → Memory
rechain m h t n p k = record m { next = n; prev = p; t_link = k; head = h; tail = t }

pub Same-rechain :
    {m : Memory} {h t n p k : Ptr → Ptr} {ls xs : List Ptr}
    → ((l : Ptr) → l ∉ ls → (h l ≡ m.head l) × (t l ≡ m.tail l))
    → ((a : Ptr) → a ∉ xs → (n a ≡ m.next a) × (p a ≡ m.prev a) × (k a ≡ m.t_link a))
    → Same m (rechain m h t n p k) ls xs
Same-rechain links items = record {
  item_live = refl;
  expire_time = refl;
  item = refl;
  events = refl;
  link_live = refl;
  head = λ l out. (links l out).0;
  tail = λ l out. (links l out).1;
  next = λ a out. (items a out).0;
  prev = λ a out. (items a out).1;
  t_link = λ a out. (items a out).2;
}

-- Two steps, seen from what both leave alone.
pub Same-trans :
    {m m' m'' : Memory} {ls ls' xs xs' : List Ptr} (ks ys : List Ptr)
    → Same m m' ls xs
    → Same m' m'' ls' xs'
    → ((l : Ptr) → l ∉ ks → (l ∉ ls) × (l ∉ ls'))
    → ((a : Ptr) → a ∉ ys → (a ∉ xs) × (a ∉ xs'))
    → Same m m'' ks ys
Same-trans ks ys s t links items = record {
  item_live = t.item_live ∙ s.item_live;
  expire_time = t.expire_time ∙ s.expire_time;
  item = t.item ∙ s.item;
  events = t.events ∙ s.events;
  link_live = t.link_live ∙ s.link_live;
  head = λ l h. t.head l (links l h).1 ∙ s.head l (links l h).0;
  tail = λ l h. t.tail l (links l h).1 ∙ s.tail l (links l h).0;
  next = λ a h. t.next a (items a h).1 ∙ s.next a (items a h).0;
  prev = λ a h. t.prev a (items a h).1 ∙ s.prev a (items a h).0;
  t_link = λ a h. t.t_link a (items a h).1 ∙ s.t_link a (items a h).0;
}

pub Same-weaken :
    {m m' : Memory} {ls xs : List Ptr} (ys : List Ptr)
    → Same m m' ls xs
    → ((a : Ptr) → a ∉ ys → a ∉ xs)
    → Same m m' ls ys
Same-weaken ys s less = record {
  item_live = s.item_live;
  expire_time = s.expire_time;
  item = s.item;
  events = s.events;
  link_live = s.link_live;
  head = s.head;
  tail = s.tail;
  next = λ a out. s.next a (less a out);
  prev = λ a out. s.prev a (less a out);
  t_link = λ a out. s.t_link a (less a out);
}

-- Every item of a chain names its link.
pub Chain-t_link :
    (m : Memory) (l before : Ptr) (xs : List Ptr) (a : Ptr)
    → Chain m l before xs
    → a ∈ xs
    → m.t_link a ≡ l
Chain-t_link m l before [] a c h = absurd (cc)
Chain-t_link m l before (x ∷ xs) a c h = ground (arith, Chain-t_link m l x xs a)

-- So an item of another link is not on this one.
pub not-mem_of_t_link :
    (m : Memory) (l before : Ptr) (xs : List Ptr) (a : Ptr)
    → Chain m l before xs
    → m.t_link a ≢ l
    → a ∉ xs
not-mem_of_t_link m l before xs a c h = elim (Bool-cases (has a xs)) [
  | inl e ↦ absurd (h (Chain-t_link m l before xs a c e))
  | inr e ↦ e
]

-- A chain is read off its own items.
pub Chain-agree :
    (m m' : Memory) (l before : Ptr) (xs : List Ptr)
    → m'.item_live ≡ m.item_live
    → ((a : Ptr)
        → a ∈ xs
        → (m'.next a ≡ m.next a) × (m'.prev a ≡ m.prev a) × (m'.t_link a ≡ m.t_link a))
    → Chain m l before xs
    → Chain m' l before xs
Chain-agree m m' l before [] live same c = tt
Chain-agree m m' l before (x ∷ xs) live same (v, next, prev, t_link, out, rest) =
    let (n, p, t) = same x (ground arith) in
    (
      rw live v,
      n ∙ next,
      p ∙ prev,
      t ∙ t_link,
      out,
      Chain-agree m m' l x xs live (λ a h. same a (ground arith)) rest,
    )

-- The same items on another link.
pub Chain-relink :
    (m m' : Memory) (l l' before : Ptr) (xs : List Ptr)
    → m'.item_live ≡ m.item_live
    → ((a : Ptr) → a ∈ xs → (m'.next a ≡ m.next a) × (m'.prev a ≡ m.prev a) × (m'.t_link a ≡ l'))
    → Chain m l before xs
    → Chain m' l' before xs
Chain-relink m m' l l' before [] live same c = tt
Chain-relink m m' l l' before (x ∷ xs) live same (v, next, prev, t_link, out, rest) =
    let (n, p, t) = same x (ground arith) in
    (
      rw live v,
      n ∙ next,
      p ∙ prev,
      t,
      out,
      Chain-relink m m' l l' x xs live (λ a h. same a (ground arith)) rest,
    )

pub Chain-frame :
    {m m' : Memory} {ls ys : List Ptr} (l before : Ptr) (xs : List Ptr)
    → Same m m' ls ys
    → ((a : Ptr) → a ∈ xs → a ∉ ys)
    → Chain m l before xs
    → Chain m' l before xs
Chain-frame {m} {m'} l before xs s apart =
    Chain-agree m m' l before xs s.item_live
      λ a h. (s.next a (apart a h), s.prev a (apart a h), s.t_link a (apart a h))

pub valid-last :
    (m : Memory) (l before x : Ptr) (xs : List Ptr)
    → Chain m l before (x ∷ xs)
    → valid m.item_live (last x xs) ≡ true
valid-last m l before x [] c = c.0
valid-last m l before x (y ∷ xs) (_, _, _, _, _, c) = valid-last m l x y xs c

-- The items of a chain are not NULL.
pub Chain-null : (m : Memory) (l before : Ptr) (xs : List Ptr) → Chain m l before xs → null ∉ xs
Chain-null m l before [] c = refl
Chain-null m l before (x ∷ xs) c =
    ground (arith, valid-ne_null m.item_live x c.0, Chain-null m l x xs)

-- A link that the step does not name, and that shares no item with it, stands for the same list.
pub IsLink-frame :
    {m m' : Memory} {ls ys : List Ptr} (l : Ptr) (xs : List Ptr)
    → Same m m' ls ys
    → l ∉ ls
    → ((a : Ptr) → a ∈ xs → a ∉ ys)
    → IsLink m l xs
    → IsLink m' l xs
IsLink-frame l xs s out apart is = record {
  live = rw s.link_live is.live;
  head = s.head l out ∙ is.head;
  tail = s.tail l out ∙ is.tail;
  chain = Chain-frame l _ xs s apart is.chain;
}
