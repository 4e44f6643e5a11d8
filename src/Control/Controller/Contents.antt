-- ===== src/Control/Controller/Contents.antt =====
-- What is in the queue of a controller, and so what it sends.
use se_scope_target.Prelude.{
  ℕ, ◌<◌, ◌≤◌, ◌≡◌, ◌≢◌, subst, sym, Bool, true, false, List, [], ◌∷◌, ◌++◌, Option, none, some,
  if◌then◌else◌, arith, Option-cases, ◌⊎◌, inl, inr, ltb,
}
use se_scope_target.SeLib.Core.{CoreLib}
use se_scope_target.SeLib.Queue.{Queue}
use se_scope_target.ScopeTypes.{
  MessageType, MessagePriorities, TriggerConfiguration, se_nak, se_ack, sc_data, sc_announce,
  sc_detect, sc_stream, sc_log,
}
use se_scope_target.Core.Scope.{Scope}
use se_scope_target.Control.Commands.{Unpacker, dispatch}
use se_scope_target.Control.Controller.{
  Controller, message_can_unlock_ack_lock, command_pack_push_event, push_events, command_update,
  run_tx, run_rx, create,
}
use se_scope_target.Control.Controller.Steps.{
  Event, received, sent, Step, Runs, receives, waits, sends, holds, notified, commanded, stays,
  steps,
}

-- The messages of the target to the host.
abbrev pub IsForHost : MessageType → Type 0
IsForHost m = (m ≡ se_nak) ⊎ (m ≡ se_ack) ⊎ ((sc_data ≤ m) × (m ≤ sc_log))

abbrev pub SomeForHost : Option MessageType → Type 0
SomeForHost none = Unit {0}
SomeForHost (some m) = IsForHost m

-- All messages sent are for the host.
abbrev pub SentForHost : List Event → Type 0
SentForHost [] = Unit {0}
SentForHost (received m ∷ es) = SentForHost es
SentForHost (sent m ∷ es) = IsForHost m × SentForHost es

module _ {F B S I Q : Type 0} (L : CoreLib F B S I) (A : Queue Q) where
  -- At most one message about the log waits, and only messages for the host do.
  pub record IsSound (q : Q) : Type 0 where
    pub log_once : A.count q sc_log ≤ 1
    pub for_host : (m : MessageType) → 0 < A.count q m → IsForHost m

  push-IsSound :
      (q : Q) (m p : ℕ)
      → IsForHost m
      → (m ≢ sc_log) ⊎ (A.count q sc_log ≡ 0)
      → IsSound q
      → IsSound (A.push q m p)
  push-IsSound q m p f h v = record {
    log_once = ground (arith, A.count-push q m p sc_log, v.log_once);
    for_host = λ x some_in. ground (arith, A.count-push q m p x, v.for_host x);
  }

  pub event-IsSound :
      (c : Controller F Q) (m : MessageType)
      → IsSound c.queue
      → IsSound (command_pack_push_event A c m).queue
  unfolding command_pack_push_event
  event-IsSound c m v = ground (
    arith,
    push-IsSound c.queue se_nak 0,
    push-IsSound c.queue se_ack 0,
    push-IsSound c.queue sc_data c.priorities.data_priority,
    push-IsSound c.queue sc_announce 1,
    push-IsSound c.queue sc_detect 1,
    push-IsSound c.queue sc_stream c.priorities.stream_priority,
    push-IsSound c.queue sc_log c.priorities.log_priority,
    A.contains_lem c.queue sc_log,
  )

  events-IsSound :
      (c : Controller F Q) (ms : List MessageType)
      → IsSound c.queue
      → IsSound (push_events A c ms).queue
  unfolding push_events
  events-IsSound c [] v = v
  events-IsSound c (m ∷ ms) v =
      events-IsSound (command_pack_push_event A c m) ms (event-IsSound c m v)

  pop-IsSound :
      (q q' : Q) (m : MessageType) → A.pop q ≡ some (m, q') → IsSound q → IsSound q' × IsForHost m
  pop-IsSound q q' m e v = (
    record {
      log_once = omega (arith, A.count-pop q q' m sc_log e, v.log_once);
      for_host = λ x some_in. v.for_host x (omega (arith, A.count-pop q q' m x e));
    },
    v.for_host m (ground (arith, A.count-pop q q' m m e)),
  )

  tx-IsSound :
      (c d : Controller F Q) (ready : Bool) (n : ℕ) (ran : Bool) (o : Option MessageType)
      → run_tx A c ready n ≡ (d, ran, o)
      → IsSound c.queue
      → IsSound d.queue × SomeForHost o
  unfolding run_tx
  tx-IsSound c d ready n ran o e v =
      let c1 = if ltb 0 n then command_pack_push_event A c sc_log else c in
      let v1 : IsSound c1.queue = ground (arith, event-IsSound c sc_log v) in
      elim (Option-cases (A.pop c1.queue)) [
        | inl p ↦ ground arith
        | inr (r, p) ↦ let popped = pop-IsSound c1.queue r.1 r.0 p v1 in ground arith
      ]

  rx-IsSound :
      (c d : Controller F Q) (s s' : Scope F B S I) (u : Unpacker F) (memory : ℕ → ℕ) (now : ℕ)
      (ran : Bool)
      → run_rx L A c s u memory now ≡ some (d, s', ran)
      → IsSound c.queue
      → IsSound d.queue
  unfolding run_rx
  rx-IsSound c d s s' u memory now ran e v =
      let m = c.command_pending in
      let c1 = if message_can_unlock_ack_lock m then record c { wait_for_ack = false } else c in
      let same : c1.queue ≡ c.queue = ground arith in
      elim (Option-cases (dispatch L c1.commands u s memory now c1.command_pending)) [
        | inl p ↦ ground (arith, event-IsSound c m v)
        | inr (r, p) ↦
            let pushed =
              events-IsSound (record c1 { commands = r.0 }) r.2 (subst IsSound (sym same) v) in
            ground (arith, event-IsSound c m v)
      ]

  create-IsSound :
      (raw : TriggerConfiguration F) (amount : ℕ) (priorities : MessagePriorities)
      → IsSound (create A raw amount priorities).queue
  unfolding create
  create-IsSound raw amount priorities = record {
    log_once = omega (arith, A.count-create 5 10 3 sc_log);
    for_host = λ m h. absurd (omega (arith, A.count-create 5 10 3 m));
  }

  Step-SentForHost :
      {c d : Controller F Q} {xs : List Event}
      → Step L A c d xs
      → IsSound c.queue
      → IsSound d.queue × SentForHost xs
  unfolding command_update
  Step-SentForHost {c} {d} (receives s s' u memory now e) v =
      (rx-IsSound c d s s' u memory now true e v, tt)
  Step-SentForHost {c} {d} (waits s s' u memory now e) v =
      (rx-IsSound c d s s' u memory now false e v, tt)
  Step-SentForHost {c} {d} (sends ready n m e) v =
      let (w, f) = tx-IsSound c d ready n true (some m) e v in (w, (f, tt))
  Step-SentForHost {c} {d} (holds ready n e) v = ((tx-IsSound c d ready n false none e v).0, tt)
  Step-SentForHost {c} (notified m) v = (event-IsSound c m v, tt)
  Step-SentForHost {c} (commanded m) v = (v, tt)

  SentForHost-append :
      (xs ys : List Event) → SentForHost xs → SentForHost ys → SentForHost (xs ++ ys)
  SentForHost-append [] ys h k = k
  SentForHost-append (received m ∷ xs) ys h k = SentForHost-append xs ys h k
  SentForHost-append (sent m ∷ xs) ys (f, h) k = (f, SentForHost-append xs ys h k)

  Runs-SentForHost :
      {c d : Controller F Q} {es : List Event}
      → Runs L A c d es
      → IsSound c.queue
      → IsSound d.queue × SentForHost es
  Runs-SentForHost stays v = (v, tt)
  Runs-SentForHost (steps {xs = xs} {ys = ys} s r) v =
      let (w, h) = Step-SentForHost s v in
      let (z, k) = Runs-SentForHost r w in (z, SentForHost-append xs ys h k)

  -- Whatever is done with a new controller, in any order: at most one message about the log waits in
  -- its queue, only messages for the host do, and it sends no others.
  pub create-Runs :
      (raw : TriggerConfiguration F) (amount : ℕ) (priorities : MessagePriorities)
      {d : Controller F Q} {es : List Event}
      → Runs L A (create A raw amount priorities) d es
      → IsSound d.queue × SentForHost es
  create-Runs raw amount priorities r = Runs-SentForHost r (create-IsSound raw amount priorities)
