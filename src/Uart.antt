-- ===== src/Uart.antt =====
-- drivers/UART16550.c: the ring of received characters, in which new ones are dropped when it is
-- full. The ports are not modelled: `received` is what the data port gives while it has a character.
pub mod Queue
mod Tests
use cuore_os.Base.{ℕ, Option, none, some, List, [], ◌∷◌, ◌==◌, if◌then◌else◌, store, next_in}

abbrev pub rx_buf_size : ℕ
rx_buf_size = 1024

pub record Uart : Type 0 where
  pub rx_buffer : ℕ → ℕ
  pub rx_read_ptr : ℕ
  pub rx_write_ptr : ℕ

-- One turn of the loop of the interrupt handler.
unfoldable pub receive : ℕ → Uart → Uart
receive c u =
    let next = next_in rx_buf_size u.rx_write_ptr in
    if next == u.rx_read_ptr
    then u
    else record u { rx_buffer = store u.rx_buffer u.rx_write_ptr c; rx_write_ptr = next }

unfoldable pub irq_handler : (received : List ℕ) → Uart → Uart
unfolding receive
irq_handler [] u = u
irq_handler (c ∷ cs) u = irq_handler cs (receive c u)

-- Nothing, where the call waits for an interrupt.
unfoldable pub getc : Uart → Option (Uart × ℕ)
getc u =
    if u.rx_read_ptr == u.rx_write_ptr
    then none
    else some
        (record u { rx_read_ptr = next_in rx_buf_size u.rx_read_ptr }, u.rx_buffer u.rx_read_ptr)

unfoldable pub uart_init : Uart → Uart
uart_init u = record u { rx_read_ptr = 0; rx_write_ptr = 0 }
