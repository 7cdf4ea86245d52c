-- ===== src/Uart/Queue.antt =====
-- The receive buffer of the UART as a queue of at most `rx_buf_size - 1` characters.
use cuore_os.Base.{
  ℕ, zero, suc, ◌≤◌, ◌<◌, ◌≡◌, refl, sym, ap, ◌∙◌, true, Option, none, some, List, [], ◌∷◌, ◌++◌,
  take, length, append_assoc, ◌==◌, arith, if_cases, ==_iff, next_in, distance, ring_read,
  ring_read-store, ring_read-next, ring_read-length, ring_read-empty,
}
use cuore_os.Uart.{Uart, rx_buf_size, receive, irq_handler, getc}

abbrev pub IsRing : Uart → Type 0
IsRing u = (u.rx_write_ptr < rx_buf_size) × (u.rx_read_ptr < rx_buf_size)

-- The characters that wait to be read.
unfoldable pub pending : Uart → List ℕ
pending u = ring_read rx_buf_size rx_buf_size u.rx_buffer u.rx_read_ptr u.rx_write_ptr

take-all : (n : ℕ) (xs ys : List ℕ) → length xs ≡ n → take n (xs ++ ys) ≡ xs
take-all zero [] ys e = refl
take-all zero (x ∷ xs) ys e = ground (arith, e)
take-all (suc n) [] ys e = ground (arith, e)
take-all (suc n) (x ∷ xs) ys e = ap (λ zs. x ∷ zs) (take-all n xs ys (omega (arith, e)))

take-enough : (n : ℕ) (xs : List ℕ) → length xs ≤ n → xs ≡ take n (xs ++ [])
take-enough zero [] e = refl
take-enough zero (x ∷ xs) e = ground (arith, e)
take-enough (suc n) [] e = refl
take-enough (suc n) (x ∷ xs) e = ap (λ zs. x ∷ zs) (take-enough n xs (omega (arith, e)))

module _ (c : ℕ) (u : Uart) (ring : IsRing u) where
  pending-length : length (pending u) ≡ distance rx_buf_size u.rx_read_ptr u.rx_write_ptr
  unfolding pending
  pending-length =
      ring_read-length rx_buf_size rx_buf_size u.rx_buffer u.rx_read_ptr u.rx_write_ptr ring.1
        ring.0 (omega arith)

  -- One more character changes nothing when the queue is full, and is the last one if not.
  receive-pending :
      (cs : List ℕ)
      → IsRing (receive c u)
        × (take 1023 (pending (receive c u) ++ cs) ≡ take 1023 (pending u ++ c ∷ cs))
  unfolding receive pending
  receive-pending cs =
      if_cases after (next_in rx_buf_size u.rx_write_ptr == u.rx_read_ptr) _ _
        (λ e. (
          ring,
          take-all 1023 (pending u) cs (full ((==_iff _ _).0 e))
              ∙ sym (take-all 1023 (pending u) (c ∷ cs) (full ((==_iff _ _).0 e))),
        ))
        (λ e. (
          (omega (arith, ring), ring.1),
          ap (λ xs. take 1023 (xs ++ cs))
                (ring_read-store rx_buf_size rx_buf_size u.rx_buffer u.rx_read_ptr u.rx_write_ptr c
                  ring.1 ring.0 (ground (arith, e, ring)) (omega arith))
              ∙ ap (take 1023) (append_assoc (pending u) (c ∷ []) cs),
        ))
    where
      after : Uart → Type 0
      after u' = IsRing u' × (take 1023 (pending u' ++ cs) ≡ take 1023 (pending u ++ c ∷ cs))

      full : next_in rx_buf_size u.rx_write_ptr ≡ u.rx_read_ptr → length (pending u) ≡ 1023
      full e = pending-length ∙ ground (arith, e, ring)

-- With both positions in the ring, the interrupt handler appends what it receives to the
-- characters that wait, and drops what is beyond the first 1023, and the positions stay in the
-- ring.
pub irq_handler-pending :
    (received : List ℕ) (u : Uart)
    → IsRing u
    → IsRing (irq_handler received u)
      × (pending (irq_handler received u) ≡ take 1023 (pending u ++ received))
unfolding irq_handler
irq_handler-pending [] u ring =
    (ring, take-enough 1023 (pending u) (ground (arith, pending-length 0 u ring, ring)))
irq_handler-pending (c ∷ cs) u ring = (
  (irq_handler-pending cs (receive c u) (receive-pending c u ring cs).0).0,
  (irq_handler-pending cs (receive c u) (receive-pending c u ring cs).0).1
      ∙ (receive-pending c u ring cs).1,
)

-- What `uart16550_getc` does: nothing while nothing waits, or the first character of the queue.
pub data Gets (u : Uart) : Option (Uart × ℕ) → Type 0 where
  waits : pending u ≡ [] → Gets u none
  gets : (u' : Uart) (c : ℕ) → IsRing u' → pending u ≡ c ∷ pending u' → Gets u (some (u', c))

-- With both positions in the ring, `uart16550_getc` waits just while no character waits in the
-- ring, and otherwise yields the first one and leaves the others in their order.
pub getc-Gets : (u : Uart) → IsRing u → Gets u (getc u)
unfolding getc pending
getc-Gets u ring =
    if_cases (Gets u) (u.rx_read_ptr == u.rx_write_ptr) _ _ (λ e. waits (empty e))
      (λ e.
        gets _ _ (ring.0, omega (arith, ring))
          (ring_read-next rx_buf_size rx_buf_size u.rx_buffer u.rx_read_ptr u.rx_write_ptr ring.1
            ring.0 e (omega arith)))
  where
    empty : (u.rx_read_ptr == u.rx_write_ptr) ≡ true → pending u ≡ []
    empty e = ring_read-empty rx_buf_size rx_buf_size u.rx_buffer u.rx_read_ptr u.rx_write_ptr e
