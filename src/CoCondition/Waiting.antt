-- ===== src/CoCondition/Waiting.antt =====
-- The coroutines of a condition wait in order, and a signal or a broadcast makes them active in
-- that order.
use mathlib.Core.List.{append_assoc}
use batonlib.Base.{
  ◌≡◌, refl, sym, ◌∙◌, true, List, [], ◌∷◌, ◌++◌, ◌∉◌, append_nil, not-mem-cons, not-mem_tail,
  ne_of_not-mem,
}
use batonlib.Int.{ℤ, pos, negsuc}
use batonlib.Memory.{Ptr, null, Memory, valid, valid-ne}
use batonlib.Memory.Returns
use batonlib.Memory.Returns.{Returns}
use batonlib.Link.{IsLink, append}
use batonlib.Link.Append.{append_lem}
use batonlib.Link.Frame.{Same, not-mem_of_t_link}
use batonlib.CoCondition.{co_cond_signal, broadcast_all, co_cond_broadcast}

-- Event `e` and its item `t` are allocated, and the item is on no link.
pub record IsWaiting (m : Memory) (e t : Ptr) : Type 0 where
  pub live : valid m.events.live e ≡ true
  pub t_item : m.events.t_item e ≡ t
  pub item_valid : valid m.item_live t ≡ true
  pub free : m.t_link t ≡ null

-- The events `es` of a deque with their items `ts`, each once.
abbrev pub Waits : Memory → List Ptr → List Ptr → Type 0
Waits m [] [] = Unit {0}
Waits m (e ∷ es) [] = ⊥
Waits m [] (t ∷ ts) = ⊥
Waits m (e ∷ es) (t ∷ ts) = IsWaiting m e t × (e ∉ es) × (t ∉ ts) × Waits m es ts

-- The others still wait when the item `t` has joined a link.
Waits-append :
    {m m' : Memory} (l t : Ptr) (rs : List Ptr) (es ts : List Ptr)
    → IsLink m l rs
    → Same m m' (l ∷ []) (t ∷ rs)
    → t ∉ ts
    → Waits m es ts
    → Waits m' es ts
Waits-append l t rs [] [] is s out w = tt
Waits-append l t rs (e ∷ es) [] is s out w = w
Waits-append l t rs [] (u ∷ ts) is s out w = w
Waits-append {m} l t rs (e ∷ es) (u ∷ ts) is s out (here, oe, ou, rest) = (
  record {
    live = rw s.events here.live;
    t_item = rw s.events here.t_item;
    item_valid = rw s.item_live here.item_valid;
    free =
        s.t_link u (
          not-mem-cons u t rs (λ k. ne_of_not-mem t u ts out (sym k))
            (not-mem_of_t_link m l null rs u is.chain
              (λ k. valid-ne m.link_live l is.live (sym k ∙ here.free))))
        ∙ here.free;
  },
  oe,
  ou,
  Waits-append l t rs es ts is s (not-mem_tail t u ts out) rest,
)

-- One waiting item joins the active link.
wake_lem :
    {m : Memory} {active : Ptr} {rs : List Ptr} (e t : Ptr) (es ts : List Ptr)
    → IsLink m active rs
    → Waits m (e ∷ es) (t ∷ ts)
    → Returns (append active t m) (λ _ m'. IsLink m' active (rs ++ t ∷ []) × Waits m' es ts)
wake_lem {m} {active} {rs} e t es ts is (here, oe, ot, rest) =
    Returns.mono (append active t m) _ _
      (append_lem m active t rs is here.item_valid (
        not-mem_of_t_link m active null rs t is.chain
          (λ k. valid-ne m.link_live active is.live (sym k ∙ here.free))))
      (λ _ m' (link, same). (link, Waits-append active t rs es ts is same ot rest))

-- What a signal does to the deque `es` with the items `ts`.
pub Signalled : (m m' : Memory) (active : Ptr) (rs es ts : List Ptr) → ℤ → List Ptr → Type 0
Signalled m m' active rs [] ts r es' = (r ≡ negsuc 0) × (es' ≡ []) × (m' ≡ m)
Signalled m m' active rs (e ∷ es) [] r es' = ⊥
Signalled m m' active rs (e ∷ es) (t ∷ ts) r es' =
    (r ≡ pos 1) × (es' ≡ es) × IsLink m' active (rs ++ t ∷ []) × Waits m' es ts

-- A signal runs without a fault. With nobody waiting it returns -1 and changes nothing; otherwise
-- it returns 1, the item of the coroutine that has waited longest stands at the end of the active
-- link, and the others still wait in their order.
pub co_cond_signal_lem :
    (m : Memory) (active : Ptr) (rs es ts : List Ptr)
    → IsLink m active rs
    → Waits m es ts
    → Returns
        (co_cond_signal (record { co_deque = es; active_link = active }) m)
        (λ (r, cond) m'. Signalled m m' active rs es ts r cond.co_deque)
unfolding co_cond_signal Signalled
co_cond_signal_lem m active rs [] ts is w = (refl, refl, refl)
co_cond_signal_lem m active rs (e ∷ es) [] is w = absurd w
co_cond_signal_lem m active rs (e ∷ es) (t ∷ ts) is w =
    simp (w.0.live, w.0.t_item)
      (Returns.bind (append active t m) _ _ _ (wake_lem e t es ts is w)
        (λ _ m' (link, rest). (refl, refl, link, rest)))

broadcast_all_lem :
    (m : Memory) (active : Ptr) (rs es ts : List Ptr)
    → IsLink m active rs
    → Waits m es ts
    → Returns (broadcast_all active es m) (λ _ m'. IsLink m' active (rs ++ ts))
unfolding broadcast_all
broadcast_all_lem m active rs [] [] is w = rw append_nil is
broadcast_all_lem m active rs [] (t ∷ ts) is w = absurd w
broadcast_all_lem m active rs (e ∷ es) [] is w = absurd w
broadcast_all_lem m active rs (e ∷ es) (t ∷ ts) is w =
    simp (w.0.live, w.0.t_item)
      (Returns.bind (append active t m) _ _ _ (wake_lem e t es ts is w) (λ _ m' (link, rest).
        Returns.mono (broadcast_all active es m') _ _
          (broadcast_all_lem m' active (rs ++ t ∷ []) es ts link rest)
          (λ _ m'' all. rw append_assoc at all)))

-- A broadcast runs without a fault and returns 1: the items of all the waiting coroutines stand on
-- the active link behind those that stood there, in the order in which they have waited, and nobody
-- waits any more.
pub co_cond_broadcast_lem :
    (m : Memory) (active : Ptr) (rs es ts : List Ptr)
    → IsLink m active rs
    → Waits m es ts
    → Returns
        (co_cond_broadcast (record { co_deque = es; active_link = active }) m)
        (λ (r, cond) m'. (r ≡ pos 1) × (cond.co_deque ≡ []) × IsLink m' active (rs ++ ts))
unfolding co_cond_broadcast
co_cond_broadcast_lem m active rs es ts is w =
    Returns.bind (broadcast_all active es m) _ _ _ (broadcast_all_lem m active rs es ts is w)
      (λ _ m' link. (refl, refl, link))
