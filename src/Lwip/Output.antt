-- ===== src/Lwip/Output.antt =====
-- mm_halow_netif_output: lwIP's way to send a frame.
use mm_halow_driver.Base.{ℕ, Option, none, some}
use mm_halow_driver.Ctrl.{Errno, ok, eagain}
use mm_halow_driver.Ctrl.Transmit.{Frame, TxHost, send_ethernet}

-- ERR_OK and ERR_IF
pub data Err : Type 0 where
  err_ok err_if : Err

-- What lwIP is told of an error number: a full queue drops the frame.
pub to_err : Errno → Err
to_err ok = err_ok
to_err eagain = err_ok
to_err e = err_if

abbrev pub output_result : {S : Type 0} → Option (Errno × S) → Option (Err × S)
output_result none = none
output_result (some (e, s)) = some (to_err e, s)

-- mm_halow_netif_output of a frame of `len` bytes
pub netif_output : {S : Type 0} → TxHost S → ℕ → ℕ → Frame → S → Option (Err × S)
netif_output h fuel len frame s = output_result (send_ethernet h fuel len frame s)
