-- ===== src/LogStream/Tests.antt =====
-- A line that begins with "a", and the theorems of the log stream on it.
use mathlib.Core.Option
use batonlib.Base.{◌≡◌, refl, some, [], ◌∷◌, arith}
use batonlib.Int.{negsuc}
use batonlib.Memory.{write}
use batonlib.Bytes.{put_bytes, get_bytes}
use batonlib.LogStream.{
  LogBuffer, contents, append, add, emit_hex, hex_at, convert, numeric_room, format_integer,
  print_int, print_pointer,
}
use batonlib.LogStream.Buffer.{Written, append-Written}
use batonlib.LogStream.Integers.{Outcome, print_int_lem}

abbrev line : LogBuffer
line = record { data_ = λ i. 97; cur = 1 }

print_int-line :
    Option.map contents (print_int (negsuc 304) line) ≡ some (97 ∷ 45 ∷ 51 ∷ 48 ∷ 53 ∷ [])
unfolding print_int format_integer numeric_room convert add put_bytes get_bytes write
print_int-line = refl

print_pointer-line :
    Option.map contents (print_pointer 0x1f line) ≡ some (97 ∷ 49 ∷ 70 ∷ 0 ∷ 97 ∷ [])
unfolding print_pointer numeric_room emit_hex hex_at add put_bytes get_bytes write
print_pointer-line = refl

append-Written_example : Written line (98 ∷ 99 ∷ []) (append (98 ∷ 99 ∷ []) line)
append-Written_example = append-Written (98 ∷ 99 ∷ []) line (omega arith)

print_int_lem_example :
    (b' : LogBuffer) × (print_int (negsuc 304) line ≡ some b') × Outcome line (negsuc 304) b'
print_int_lem_example = print_int_lem (negsuc 304) line (omega arith) (omega arith)
