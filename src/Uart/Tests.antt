-- ===== src/Uart/Tests.antt =====
-- Tests of the UART's receive buffer, and its theorems at an empty one.
use cuore_os.Base.{◌≡◌, refl, [], ◌∷◌, ◌++◌, take, arith, ring_read}
use cuore_os.Uart.{Uart, irq_handler, receive, getc}
use cuore_os.Uart.Queue.{IsRing, pending, Gets, irq_handler-pending, getc-Gets}

abbrev empty : Uart
empty = record { rx_buffer = λ i. 0; rx_read_ptr = 1023; rx_write_ptr = 1023 }

two_received : pending (irq_handler (65 ∷ 66 ∷ []) empty) ≡ 65 ∷ 66 ∷ []
unfolding pending ring_read irq_handler receive
two_received = refl

irq_handler-pending_example :
    IsRing (irq_handler (65 ∷ 66 ∷ []) empty)
    × (pending (irq_handler (65 ∷ 66 ∷ []) empty) ≡ take 1023 (pending empty ++ 65 ∷ 66 ∷ []))
irq_handler-pending_example = irq_handler-pending (65 ∷ 66 ∷ []) empty (omega arith, omega arith)

abbrev one_char : Uart
one_char = record { rx_buffer = λ i. 65; rx_read_ptr = 1023; rx_write_ptr = 0 }

getc-Gets_example : Gets one_char (getc one_char)
getc-Gets_example = getc-Gets one_char (omega arith, omega arith)
