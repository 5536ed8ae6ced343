-- ===== src/Port/Wire.antt =====
-- A concrete UART driver: a hardware FIFO, and a device that takes at most `takes` bytes at once.
use dtmc_zephyr.Prelude.{
  ℕ, ◌≤◌, ◌≡◌, refl, ap, min, true, some, List, ◌++◌, arith, length, take, drop,
}
use dtmc_zephyr.Err.{success}
use dtmc_zephyr.Port.Uart.{UartDriver}

pub record Wire : Type 0 where
  pub waiting : List ℕ
  pub out : List ℕ
  pub takes : ℕ

pub fill_fits :
    (w : Wire) (bytes : List ℕ) (n : ℕ)
    → some (min w.takes (length bytes)) ≡ some n
    → (n ≤ length bytes)
      × (w.out ++ take (min w.takes (length bytes)) bytes ≡ w.out ++ take n bytes)
fill_fits w bytes n h =
    let e : min w.takes (length bytes) ≡ n = cc in (omega arith, ap (λ k. w.out ++ take k bytes) e)

pub read_fits :
    (w : Wire) (n : ℕ) (bytes : List ℕ)
    → some (take n w.waiting) ≡ some bytes
    → (bytes ≡ take n w.waiting) × (drop n w.waiting ≡ drop n w.waiting)
read_fits w n bytes h = (cc, refl)

abbrev pub wire_driver : UartDriver Wire
wire_driver = record {
  incoming = λ w. w.waiting;
  sent = λ w. w.out;
  usb_enable = λ w. w;
  device_get_binding = λ name. true;
  device_is_ready = λ w. true;
  uart_config_get = λ w. success;
  uart_configure = λ w c. (w, success);
  uart_irq_callback_user_data_set = λ w. (w, success);
  uart_irq_tx_enable = λ w. w;
  uart_irq_tx_disable = λ w. w;
  uart_irq_rx_enable = λ w. w;
  uart_irq_rx_disable = λ w. w;
  uart_irq_update = λ w. (w, true);
  uart_irq_tx_ready = λ w. true;
  uart_irq_rx_ready = λ w. true;
  uart_fifo_read = λ w n. (record w { waiting = drop n w.waiting }, some (take n w.waiting));
  uart_fifo_fill = λ w bytes. (
    record w { out = w.out ++ take (min w.takes (length bytes)) bytes },
    some (min w.takes (length bytes)),
  );
  read_takes = read_fits;
  fill_sends = fill_fits;
  tx_disable_sends_nothing = λ w. refl;
}
