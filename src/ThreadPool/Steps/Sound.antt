-- ===== src/ThreadPool/Steps/Sound.antt =====
-- What holds of a pool between two steps.
use mathlib.Core.List.{append_assoc}
use batonlib.Base.{
  ℕ, ◌+◌, ◌≤◌, ◌≡◌, refl, sym, ap, ◌∙◌, ◌⊎◌, inl, inr, false, List, [], ◌∷◌, ◌++◌, length,
  length-append, arith, Bool-cases, leb,
}
use batonlib.Monitor.{notify}
use batonlib.Monitor.Counts.{sleepers, risers, notify-counts, wait-counts, notify_all-counts}
use batonlib.ThreadPool.{Task, capacity, is_full, put, take_front, take, stop, after_take}
use batonlib.ThreadPool.Steps.{History, after_put, log_take}

-- With `p` calls of `put` and `t` threads in `take` under way, which are neither waiting nor woken.
pub record IsSoundBut (p t : ℕ) (h : History) : Type 0 where
  pub order : h.accepted ≡ h.taken ++ h.pool.queue
  pub bounded : length h.pool.queue ≤ capacity h.pool.queue_max_size
  pub takers :
      (sleepers h.pool.empty_cond ≡ 0) ⊎ (length h.pool.queue ≤ risers h.pool.empty_cond + t)
  pub putters :
      (sleepers h.pool.full_cond ≡ 0)
      ⊎ (capacity h.pool.queue_max_size ≤ length h.pool.queue + risers h.pool.full_cond + p)
  pub stopped : h.pool.running ≡ false → sleepers h.pool.empty_cond ≡ 0
  pub counted :
      h.pool.workers.at_test
        + h.pool.workers.at_take
        + length h.pool.workers.busy
        + sleepers h.pool.empty_cond
        + risers h.pool.empty_cond
        + h.pool.workers.ended
        + t
      ≡ h.pool.threads

-- The tasks come out in the order in which they went in, the queue keeps to its size, no thread
-- sleeps while there is something for it to do and nobody on the way to do it, and none is lost.
abbrev pub IsSound : History → Type 0
IsSound = IsSoundBut 0 0

pub weaker : {h : History} → IsSound h → IsSoundBut 1 0 h
weaker s = record {
  order = s.order;
  bounded = s.bounded;
  takers = s.takers;
  putters = elim s.putters [ inl z ↦ inl z | inr le ↦ inr (omega (arith, le)) ];
  stopped = s.stopped;
  counted = s.counted;
}

pub put-IsSound :
    (i : ℕ) (task : Task) (h : History)
    → IsSoundBut 1 0 h
    → IsSound (after_put task h (put i task h.pool))
unfolding put is_full after_put
put-IsSound i task h s =
    let more = length-append h.pool.queue (task ∷ []) in
    elim (Bool-cases (leb (capacity h.pool.queue_max_size) (length h.pool.queue))) [
      | inl full ↦
          let (w, r) = wait-counts task h.pool.full_cond in
          rw (put, full)
            (record {
              order = s.order;
              bounded = s.bounded;
              takers = s.takers;
              putters = inr (ground arith);
              stopped = s.stopped;
              counted = s.counted;
            })
      | inr room ↦
          rw (put, room)
            (elim (notify-counts i h.pool.empty_cond) [
              | inl (none_waits, same) ↦ rw same (record {
                order =
                    ap (λ xs. xs ++ task ∷ []) s.order
                    ∙ append_assoc h.taken h.pool.queue (task ∷ []);
                bounded = rw more (ground arith);
                takers = inl none_waits;
                putters = elim s.putters [ inl z ↦ inl z | inr le ↦ inr (omega (arith, le, more)) ];
                stopped = s.stopped;
                counted = s.counted;
              })
              | inr (one_less, one_more) ↦ record {
                order =
                    ap (λ xs. xs ++ task ∷ []) s.order
                    ∙ append_assoc h.taken h.pool.queue (task ∷ []);
                bounded = rw more (ground arith);
                takers = elim s.takers [
                  | inl z ↦ absurd (omega (arith, z, one_less))
                  | inr le ↦ inr (omega (arith, le, more, one_more))
                ];
                putters = elim s.putters [ inl z ↦ inl z | inr le ↦ inr (omega (arith, le, more)) ];
                stopped = λ e. omega (arith, s.stopped e);
                counted = omega (arith, s.counted);
              }
            ])
    ]

pub take-IsSound : (i : ℕ) (h : History) → IsSoundBut 0 1 h → IsSound (log_take h (take i h.pool))
unfolding take take_front log_take after_take
take-IsSound i h s = go h.pool.queue refl
  where
    go : (q : List Task) → h.pool.queue ≡ q → IsSound (log_take h (take_front i q h.pool))
    go [] e =
        let none_left = ap length e in
        elim (Bool-cases h.pool.running) [
          | inl on ↦
              let (w, r) = wait-counts tt h.pool.empty_cond in
              rw (on, take_front)
                (record {
                  order = s.order;
                  bounded = s.bounded;
                  takers = inr (omega (arith, none_left));
                  putters = s.putters;
                  stopped = λ off. cc;
                  counted = omega (arith, s.counted, w, r);
                })
          | inr off ↦
              rw (off, take_front)
                (record {
                  order = s.order;
                  bounded = s.bounded;
                  takers = inl (s.stopped off);
                  putters = s.putters;
                  stopped = λ _. s.stopped off;
                  counted = omega (arith, s.counted);
                })
        ]
    go (task ∷ rest) e =
        let one_out = ap length e in
        record {
          order = s.order ∙ rw e (sym (append_assoc h.taken (task ∷ []) rest));
          bounded = omega (arith, s.bounded, one_out);
          takers = elim s.takers [ inl z ↦ inl z | inr le ↦ inr (omega (arith, le, one_out)) ];
          putters = elim (notify-counts i h.pool.full_cond) [
            | inl (none_waits, same) ↦ inl (rw same none_waits)
            | inr (one_less, one_more) ↦ elim s.putters [
              | inl z ↦ absurd (omega (arith, z, one_less))
              | inr le ↦ inr (omega (arith, le, one_out, one_more))
            ]
          ];
          stopped = s.stopped;
          counted = omega (arith, s.counted);
        }

pub notify_take-IsSound :
    (i : ℕ) (h : History)
    → IsSound h
    → IsSound (record h { pool = record h.pool { empty_cond = notify i h.pool.empty_cond } })
notify_take-IsSound i h s = elim (notify-counts i h.pool.empty_cond) [
  | inl (none_waits, same) ↦ rw same s
  | inr (one_less, one_more) ↦ record {
    order = s.order;
    bounded = s.bounded;
    takers = elim s.takers [
      | inl z ↦ absurd (omega (arith, z, one_less))
      | inr le ↦ inr (omega (arith, le, one_more))
    ];
    putters = s.putters;
    stopped = λ off. absurd (omega (arith, s.stopped off, one_less));
    counted = omega (arith, s.counted, one_less, one_more);
  }
]

pub notify_put-IsSound :
    (i : ℕ) (h : History)
    → IsSound h
    → IsSound (record h { pool = record h.pool { full_cond = notify i h.pool.full_cond } })
notify_put-IsSound i h s = elim (notify-counts i h.pool.full_cond) [
  | inl (none_waits, same) ↦ rw same s
  | inr (one_less, one_more) ↦ record {
    order = s.order;
    bounded = s.bounded;
    takers = s.takers;
    putters = elim s.putters [
      | inl z ↦ absurd (omega (arith, z, one_less))
      | inr le ↦ inr (omega (arith, le, one_more))
    ];
    stopped = s.stopped;
    counted = s.counted;
  }
]

pub stop-IsSound : (h : History) → IsSound h → IsSound (record h { pool = stop h.pool })
unfolding stop
stop-IsSound h s =
    let (none_waits, all_woken) = notify_all-counts h.pool.empty_cond in
    record {
      order = s.order;
      bounded = s.bounded;
      takers = inl none_waits;
      putters = s.putters;
      stopped = λ off. none_waits;
      counted = omega (arith, s.counted, none_waits, all_woken);
    }
