-- ===== src/Context/Tests.antt =====
-- A stack of 1000 bytes.
use batonlib.Base.{refl, [], arith, false}
use batonlib.Context.{new_co_stack, CoContext, context_make}
use batonlib.Context.Placed.{Starts, context_make-Starts}

abbrev fresh : CoContext
fresh = record { regs = []; s_size = 1000; s_sp = 4104 }

context_make-Starts_example :
    Starts (new_co_stack 1000 false 4104) 77 5 0 (context_make fresh 77 5 0)
context_make-Starts_example =
    context_make-Starts 1000 4104 77 5 0 fresh (omega arith) (omega arith) (omega arith) refl refl
