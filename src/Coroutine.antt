-- ===== src/Coroutine.antt =====
-- Batonlib/coroutine.cpp: the coroutines of a thread, the stack of those that have resumed one another
-- and the queue of those that have ended (Batonlib/scheduler.cpp deletes them). The switch itself is
-- assembly: it goes on where the other coroutine stood. Addresses of new objects are arguments, and
-- `none` is an access to a deleted object or the top of an empty stack.
pub mod Events
pub mod Switch
pub mod Kept
pub mod Reached
pub mod Turns
mod Tests
use batonlib.Base.{
  ℕ, Bool, true, false, Option, none, some, List, [], ◌∷◌, ◌++◌, ◌==◌, if◌then◌else◌,
}
use batonlib.Context.{CoStack, new_co_stack, CoContext, context_make, context_init}

-- What a coroutine's function is and does is left to its caller, and so is its connection.
pub record Coroutine : Type 0 where
  pub ctx : CoContext
  pub start : Bool
  pub ended : Bool
  pub ismain : Bool
  pub cst : Option CoStack

-- The stack's top stands first.
pub record CoThread : Type 0 where
  pub objects : ℕ → Option Coroutine
  pub call_stack : List ℕ
  pub destroy_co : List ℕ
  pub running : ℕ

abbrev pub set_object : ℕ → Option Coroutine → (ℕ → Option Coroutine) → ℕ → Option Coroutine
set_object co o objects a = if a == co then o else objects a

pub new_main : Coroutine
new_main = record { ctx = context_init; start = false; ended = false; ismain = true; cst = none }

-- The constructor of the thread's scheduler, on the coroutine that runs.
pub new_thread : ℕ → CoThread
unfolding new_main
new_thread self = record {
  objects = set_object self (some new_main) (λ a. none);
  call_stack = self ∷ [];
  destroy_co = [];
  running = self;
}

-- The registers are not set before the first `resume`; `stack_size`, an `int`, is not negative.
pub new_coroutine : (stack_size base : ℕ) → Coroutine
new_coroutine stack_size base =
    let cst = new_co_stack stack_size false base in
    record {
      ctx = record { regs = []; s_size = stack_size; s_sp = cst.stack_sp };
      start = false;
      ended = false;
      ismain = false;
      cst = some cst;
    }

-- `co_func_wrapper` stands at the address `wrapper`.
pub made : (wrapper co : ℕ) → Coroutine → Coroutine
made wrapper co c =
    if c.start then c else record c { ctx = (context_make c.ctx wrapper co 0).1; start = true }

-- From the one coroutine to the other.
swap : ℕ → ℕ → CoThread → Option CoThread
swap co1 co2 t = elim (t.objects co1) [
  | none ↦ none
  | some c1 ↦ elim (t.objects co2) [ none ↦ none | some c2 ↦ some (record t { running = co2 }) ]
]

pub resume : (wrapper co : ℕ) → CoThread → Option CoThread
unfolding swap
resume wrapper co t = elim (t.objects co) [
  | none ↦ none
  | some c ↦ elim t.call_stack [
    | [] ↦ none
    | co1 ∷ rest ↦ swap co1 co (record t {
      objects = set_object co (some (made wrapper co c)) t.objects;
      call_stack = co ∷ co1 ∷ rest;
    })
  ]
]

pub yield : CoThread → Option CoThread
unfolding swap
yield t = elim t.call_stack [
  | [] ↦ none
  | curr ∷ [] ↦ none
  | curr ∷ last ∷ rest ↦ swap curr last (record t { call_stack = last ∷ rest })
]

-- `co_func_wrapper` of the running coroutine, when its function has returned.
pub finish : CoThread → Option CoThread
unfolding yield
finish t = elim (t.objects t.running) [
  | none ↦ none
  | some c ↦ yield (record t {
    objects = set_object t.running (some (record c { ended = true })) t.objects;
    destroy_co = t.destroy_co ++ t.running ∷ [];
  })
]

-- A coroutine that is deleted, once.
delete_coroutine : ℕ → (ℕ → Option Coroutine) → Option (ℕ → Option Coroutine)
delete_coroutine co objects = elim (objects co) [
  | none ↦ none
  | some c ↦ some (set_object co none objects)
]

pub delete_all : List ℕ → (ℕ → Option Coroutine) → Option (ℕ → Option Coroutine)
unfolding delete_coroutine
delete_all [] objects = some objects
delete_all (co ∷ cos) objects = elim (delete_coroutine co objects) [
  | none ↦ none
  | some objects' ↦ delete_all cos objects'
]

-- `clear_co` of the scheduler.
pub clear_co : CoThread → Option CoThread
clear_co t = elim (delete_all t.destroy_co t.objects) [
  | none ↦ none
  | some objects ↦ some (record t { objects = objects; destroy_co = [] })
]

-- The scheduler's destructor, on the stack.
pub delete_thread : CoThread → Option CoThread
delete_thread t = elim (delete_all t.call_stack t.objects) [
  | none ↦ none
  | some objects ↦ some (record t { objects = objects; call_stack = [] })
]

pub get_curr_co : CoThread → Option ℕ
get_curr_co t = elim t.call_stack [ [] ↦ none | co ∷ rest ↦ some co ]
