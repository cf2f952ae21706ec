-- ===== src/Context.antt =====
-- The stack of a coroutine (Batonlib/co_stack.cpp) and its first context (Batonlib/co_context.cpp).
-- Addresses and words have 64 bits; the addresses of new blocks are arguments.
pub mod Placed
mod Tests
use batonlib.Base.{ℕ, zero, suc, ◌+◌, ◌-◌, ◌*◌, ◌%◌, ◌^◌, Bool, List, [], ◌∷◌, if◌then◌else◌}
use batonlib.Int.{ℤ, pos, negsuc, to_int}

abbrev page_size : ℕ
page_size = 4096

-- `stack_size_` is an `int`.
pub record CoStack : Type 0 where
  pub stack_size : ℤ
  pub stack_bp : ℕ
  pub stack_sp : ℕ

-- The address behind another one by an `int`.
abbrev pub offset : ℕ → ℤ → ℕ
offset a (pos n) = (a + n) % 2 ^ 64
offset a (negsuc n) = (a + (2 ^ 64 - suc n)) % 2 ^ 64

-- The argument is an `unsigned int`. `base` is what `malloc` or `mmap` returns.
pub new_co_stack : (stack_size : ℕ) → (protect_mode : Bool) → (base : ℕ) → CoStack
new_co_stack stack_size protect_mode base =
    if protect_mode
    then record {
      stack_size = to_int stack_size;
      stack_bp = (base + page_size + stack_size % 2 ^ 32) % 2 ^ 64;
      stack_sp = base;
    }
    else record {
      stack_size = to_int stack_size;
      stack_bp = offset base (to_int stack_size);
      stack_sp = base;
    }

pub record CoContext : Type 0 where
  pub regs : List ℕ
  pub s_size : ℕ
  pub s_sp : ℕ

abbrev pub k_rdi : ℕ
k_rdi = 7

abbrev pub k_rsi : ℕ
k_rsi = 8

abbrev pub k_ret : ℕ
k_ret = 9

abbrev pub k_rsp : ℕ
k_rsp = 13

abbrev pub set_reg : ℕ → ℕ → List ℕ → List ℕ
set_reg i v [] = []
set_reg zero v (r ∷ rs) = v ∷ rs
set_reg (suc i) v (r ∷ rs) = r ∷ set_reg i v rs

abbrev zeros : ℕ → List ℕ
zeros zero = []
zeros (suc n) = 0 ∷ zeros n

-- `sp & -16LL` behind the bottom of the stack.
pub aligned_sp : CoContext → ℕ
aligned_sp ctx = let sp = (ctx.s_sp + ctx.s_size + (2 ^ 64 - 8)) % 2 ^ 64 in sp - sp % 16

-- The word that is written, and its address, with the new context.
pub context_make : CoContext → (func s1 s2 : ℕ) → (ℕ × ℕ) × CoContext
unfolding aligned_sp
context_make ctx func s1 s2 =
    let sp = aligned_sp ctx in
    (
      (sp, func),
      record ctx {
        regs =
            set_reg k_rsi s2 (set_reg k_rdi s1 (set_reg k_ret func (set_reg k_rsp sp (zeros 14))));
      },
    )

pub context_init : CoContext
context_init = record { regs = zeros 14; s_size = 0; s_sp = 0 }
