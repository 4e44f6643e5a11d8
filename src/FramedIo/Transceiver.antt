-- ===== src/FramedIo/Transceiver.antt =====
-- public/Scope/Communication/ITransceiver.h, by which a transport uses FramedIO.c, over both halves.
use se_scope_target.Prelude.{ℕ, List, Option, some}
use se_scope_target.SeLib.Ring.{Ring}
use se_scope_target.FramedIo.{Rx, Tx}
use se_scope_target.FramedIo.Receive.{put_rx_data, reset_rx}
use se_scope_target.FramedIo.Transmit.{get_tx_data, amount_of_tx_data_pending, reset_tx}
use se_scope_target.Core.Trigger.{◌>>=◌}

pub record FramedIo (B C : Type 0) : Type 0 where
  pub rx : Rx B
  pub tx : Tx C

module _ {B C : Type 0} (R : Ring ℕ B) (S : Ring ℕ C) where
  -- With an array of `size` bytes.
  abbrev pub get : FramedIo B C → ℕ → FramedIo B C × List ℕ
  get s size = let (tx, data_out) = get_tx_data S s.tx size in (record s { tx = tx }, data_out)

  abbrev pub output_size : FramedIo B C → ℕ
  output_size s = amount_of_tx_data_pending S s.tx

  -- The result of `FramedIO_putRxData` is ignored; `none` is a loop that has not ended on its fuel.
  abbrev pub put : ℕ → FramedIo B C → List ℕ → Option (FramedIo B C)
  put fuel s bytes = put_rx_data R fuel s.rx bytes >>= λ r. some (record s { rx = r.0 })

  abbrev pub reset_input : FramedIo B C → FramedIo B C
  reset_input s = record s { rx = reset_rx R s.rx }

  abbrev pub reset_output : FramedIo B C → FramedIo B C
  reset_output s = record s { tx = reset_tx S s.tx }
