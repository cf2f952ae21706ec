-- ===== src/Context/Placed.antt =====
-- The first context of a coroutine stays on its stack.
use batonlib.Base.{
  ℕ, ◌+◌, ◌%◌, ◌^◌, ◌≤◌, ◌<◌, ◌≡◌, refl, true, ltb, ap, ◌∙◌, false, some, length, get_elem?, arith,
}
use batonlib.Int.{pos, to_int}
use batonlib.Context.{
  offset, CoStack, new_co_stack, CoContext, k_rdi, k_rsi, k_ret, k_rsp, aligned_sp, context_make,
}

-- A context that starts `func` with two arguments, on a stack pointer at which `func` is written.
pub record Starts (stack : CoStack) (func s1 s2 : ℕ) (r : (ℕ × ℕ) × CoContext) : Type 0 where
  pub word : r.0.1 ≡ func
  pub low : stack.stack_sp ≤ r.0.0
  pub high : r.0.0 + 8 ≤ stack.stack_bp
  pub aligned : r.0.0 % 16 ≡ 0
  pub rsp : get_elem? r.1.regs k_rsp ≡ some r.0.0
  pub ret : get_elem? r.1.regs k_ret ≡ some func
  pub rdi : get_elem? r.1.regs k_rdi ≡ some s1
  pub rsi : get_elem? r.1.regs k_rsi ≡ some s2
  pub count : length r.1.regs ≡ 14

to_int_small : (size : ℕ) → size < 2 ^ 31 → to_int size ≡ pos size
to_int_small size narrow =
    let w : size % 2 ^ 32 ≡ size = omega arith in
    let t : ltb (size % 2 ^ 32) (2 ^ 31) ≡ true = ground arith in rw (t, w) refl

bottom :
    (size base : ℕ)
    → size < 2 ^ 31
    → base + size < 2 ^ 64
    → (new_co_stack size false base).stack_bp ≡ base + size
unfolding new_co_stack
bottom size base narrow fits = ap (λ n. offset base n) (to_int_small size narrow) ∙ omega arith

-- On a stack of at least 23 and less than 2 ^ 31 bytes that ends below 2 ^ 64, the context made starts the function with
-- the arguments; its stack pointer is a multiple of 16, and the word that is written there lies on
-- the stack.
pub context_make-Starts :
    (size base func s1 s2 : ℕ) (ctx : CoContext)
    → 23 ≤ size
    → size < 2 ^ 31
    → base + size < 2 ^ 64
    → ctx.s_size ≡ size
    → ctx.s_sp ≡ base
    → Starts (new_co_stack size false base) func s1 s2 (context_make ctx func s1 s2)
unfolding context_make aligned_sp new_co_stack
context_make-Starts size base func s1 s2 ctx room narrow fits e f = record {
  word = refl;
  low = omega (arith, e, f);
  high = rw (bottom size base narrow fits) (omega (arith, e, f));
  aligned = omega (arith, e, f);
  rsp = refl;
  ret = refl;
  rdi = refl;
  rsi = refl;
  count = refl;
}
