-- ===== src/Builders/Sending/Pass.antt =====
-- The sending half of a pass, for an event of data.
use se_scope_target.Prelude.{
  ℕ, ◌^◌, ◌<◌, ◌≤◌, ◌≡◌, refl, ap, ◌∙◌, Bool, true, false, List, [], Option, some, arith, length,
}
use se_scope_target.SeLib.Core.{CoreLib}
use se_scope_target.SeLib.Ring.{Ring}
use se_scope_target.SeLib.Stream.{Stream}
use se_scope_target.SeLib.Queue.{Queue}
use se_scope_target.Nanopb.Encoder.{Encoder}
use se_scope_target.Nanopb.Decoder.{Decoder}
use se_scope_target.ScopeTypes.{MessageType}
use se_scope_target.Core.Trigger.{◌>>=◌}
use se_scope_target.Core.Scope.{Scope}
use se_scope_target.Control.AnnounceStorage.{AnnounceStorage}
use se_scope_target.Control.Controller.{Controller}
use se_scope_target.Control.Controller
use se_scope_target.FramedIo.Transmit.{update_tx}
use se_scope_target.FramedIo.Transmit
use se_scope_target.Serialisation.Packer.{Packer, add_all}
use se_scope_target.Serialisation.Packer.Data.{Left}
use se_scope_target.Serialisation.Serializer.{Serializer, update_packer, is_ready}
use se_scope_target.ScopeTypes.{se_none, sc_data}
use se_scope_target.Control.Pack.{pack_data}
use se_scope_target.Control.Pack.Ready.{ready_channels, dispatch_pack_data}
use se_scope_target.Control.Controller.Sends.{run_tx_event}
use se_scope_target.FramedIo.{idle}
use se_scope_target.FramedIo.Frame.{frame}
use se_scope_target.FramedIo.Transmit.Pending.{pending}
use se_scope_target.FramedIo.Transmit.Pending
use se_scope_target.FramedIo.Transmit.Runs.{pending-update_tx}
use se_scope_target.Serialisation.Packer.Data.Drains.{Drained, StampsDrained}
use se_scope_target.Serialisation.Packer.Messages.{packed}
use se_scope_target.Serialisation.Packer.Messages.Encoding.{encoded, IsExact}
use se_scope_target.Serialisation.Serializer.Tx.{run_tx-pack_data, message_of}
use se_scope_target.Builders.Sending.{
  Sending, tell_sender, aggregate, run_data_aggregator, run_packer, run_communication_tx, send_pass,
}

-- The sender is idle, and the packer is empty; an event of data is next, and no acknowledge is due.
pub record IsWaiting {F B I C Q Y : Type 0} (R : Ring ℕ C) (A : Queue Q) (bytes : Stream ℕ Y)
    (w : Sending F B I C Q Y) (q : Q) : Type 0 where
  pub acknowledged : w.controller.wait_for_ack ≡ false
  pub filled : A.empty w.controller.queue ≡ false
  pub next : A.pop w.controller.queue ≡ some (sc_data, q)
  pub quiet : bytes.stream_length w.log ≡ 0
  pub packing : w.serializer.packing_pending ≡ se_none
  pub no_channels : w.serializer.nanopb_packer.channels ≡ []
  pub idle_packer : w.serializer.nanopb_packer.bytes_written ≡ 0
  pub empty : R.contents w.tx.output ≡ []
  pub sized : w.serializer.nanopb_packer.max_size ≡ R.capacity w.tx.output
  pub sound : Pending.IsSound R w.tx
  pub idle_sender : w.tx.state ≡ idle

module _ {F B S I C Q Y : Type 0} (L : CoreLib F B S I) (P : Encoder F) (D : Decoder F)
    (R : Ring ℕ C) (A : Queue Q) (bytes : Stream ℕ Y) where
  abbrev pub message : Scope F B S I → Sending F B I C Q Y → Packer F B I
  message s w = message_of L P D R bytes w.serializer.nanopb_packer s (ready_channels L s)

  -- After the aggregator.
  abbrev with_event : Scope F B S I → Sending F B I C Q Y → Q → Packer F B I → Sending F B I C Q Y
  with_event s w q p = record w {
    controller = record w.controller { queue = q; wait_for_ack = true };
    serializer = update_packer (record w.serializer { nanopb_packer = p }) sc_data;
  }

  run_data_aggregator_event :
      (s : Scope F B S I) (storage : Option (AnnounceStorage F (List ℕ))) (w : Sending F B I C Q Y)
      (q : Q)
      → IsWaiting R A bytes w q
      → run_data_aggregator L P D R A bytes s storage w
        ≡ with_event s w q (add_all w.serializer.nanopb_packer (pack_data L bytes s))
  unfolding run_data_aggregator
  run_data_aggregator_event s storage w q i =
      let used : R.used w.tx.output ≡ 0 = R.used_lem w.tx.output ∙ ap length i.empty in
      let ready : is_ready w.serializer (R.used w.tx.output) ≡ true =
        ground (arith, i.packing, used) in
      let popped = run_tx_event A w.controller sc_data q i.acknowledged i.filled i.next in
      ap (λ b. told (Controller.run_tx A w.controller b (bytes.stream_length w.log))) ready
      ∙ (ap (λ n. told (Controller.run_tx A w.controller true n)) i.quiet
          ∙ (ap told popped
              ∙ ap
                  (λ d. record w {
                    controller = record w.controller { queue = q; wait_for_ack = true };
                    serializer =
                        update_packer
                          (record w.serializer {
                            nanopb_packer = add_all w.serializer.nanopb_packer d.1;
                          })
                          sc_data;
                    log = d.0;
                  })
                  (dispatch_pack_data L (List ℕ) bytes s storage w.log)))
    where
      told : Controller F Q × Bool × Option MessageType → Sending F B I C Q Y
      told r = aggregate L P D R A bytes s storage (record w { controller = r.0 }) r.2

  -- The end of `run_packer`.
  abbrev after_packer :
      Sending F B I C Q Y
      → Option (Serializer F B I × Left B I C × Bool × Option MessageType)
      → Option (Sending F B I C Q Y × Left B I C)
  after_packer w o = o >>= λ r. some (
    record w {
      serializer = r.0;
      tx = tell_sender L P D R A bytes r.3 (record w.tx { output = r.1.output });
    },
    r.1,
  )

  -- With an event of data next in the queue, no acknowledge due and nothing to log, an idle sender with
  -- an empty output, and an empty packer with room for the channels of the scope: if the announced
  -- lengths are right for the full swap buffers, and the message fits the output and has less than
  -- 2 ^ 32 bytes, then the sending half of a pass starts the frame whose payload is the encoding of
  -- these channels, drains their buffers and the time stamps, and waits for an acknowledge.
  pub pending-send_pass :
      (callback : Bool) (s : Scope F B S I) (storage : Option (AnnounceStorage F (List ℕ)))
      (w : Sending F B I C Q Y) (q : Q)
      → IsWaiting R A bytes w q
      → length s.rig.channels ≤ w.serializer.nanopb_packer.max_number_of_channels
      → IsExact L P R (ready_channels L s)
      → length (encoded L P R (message s w)) ≤ w.serializer.nanopb_packer.max_size
      → length (encoded L P R (message s w)) < 2 ^ 32
      → (v : Sending F B I C Q Y) × (l : Left B I C) × (send_pass L P D R A bytes callback s storage
            w
          ≡ some (v, l))
        × (pending R v.tx ≡ frame sc_data (encoded L P R (message s w)))
        × Drained L P R l.buffers
        × StampsDrained L P R l.stamps
        × (v.controller.wait_for_ack ≡ true)
        × (v.serializer.packing_pending ≡ se_none)
  unfolding send_pass run_packer run_communication_tx
  pending-send_pass callback s storage w q i few exact room small =
      let z = w.serializer in
      let p = message s w in
      let (filled, sends) =
        run_tx-pack_data L P D R bytes z s w.tx.output i.no_channels i.idle_packer few i.empty
          i.sized exact room in
      let (l, e, content, drained, stamps) = sends in
      let aggregated =
        run_data_aggregator_event s storage w q i ∙ ap (λ p. with_event s w q p) filled in
      let w' = with_event s w q p in
      let t = update_tx R (record w.tx { output = l.output }) sc_data in
      let v : Sending F B I C Q Y = record w' {
        serializer = record z { nanopb_packer = packed L P R p l; packing_pending = se_none };
        tx = (Transmit.run_tx R callback t).0;
      } in
      (
        v,
        l,
        ap
              (λ w. run_packer L P D R A bytes w >>= λ r.
                some (run_communication_tx L P D R A bytes callback r.0, r.1))
              aggregated
            ∙ ap
                (λ o. after_packer w' o >>= λ r.
                  some (run_communication_tx L P D R A bytes callback r.0, r.1))
                e,
        pending-update_tx R w.tx l.output sc_data callback i.sound i.idle_sender (omega arith)
              (omega (arith, R.used_lem l.output, ap length content, small))
            ∙ ap (λ c. frame sc_data c) content,
        drained,
        stamps,
        refl,
        refl,
      )
