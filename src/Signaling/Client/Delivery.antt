-- ===== src/Signaling/Client/Delivery.antt =====
-- What `readPump` delivers.
use termcall.Prelude.{
  ◌≤◌, ◌≡◌, inl, inr, Bool, true, false, ◌&&◌, List, [], ◌∷◌, ◌++◌, Option, arith, ltb, ◌==◌,
  if◌then◌else◌, ok, length, All, All-append, length-append, Bool-cases, Result-cases,
}
use termcall.Text.{Bytes}
use termcall.Protocol.Message.{SignalingMessage}
use termcall.Protocol.Validate.{Runes, Json, validate_server_message}
use termcall.Protocol.Envelope.{decode_message}
use termcall.Signaling.Server.{peer_queue_size}
use termcall.Signaling.Client.{
  Client, ClientError, Read, message, failure, Event, read, receive, cancel, report_error, deliver,
  validated, decoded, read_pump, after_head, step, stop,
}

module _ (u : Runes) (json : Json) (read_message : Bytes → Option SignalingMessage) where
  abbrev pub FromServer : SignalingMessage → Type 0
  FromServer m = validate_server_message u json m ≡ ok tt

  pub record IsSound (c : Client) : Type 0 where
    pub messages : All FromServer c.recv
    pub room : length c.recv ≤ peer_queue_size
    pub one_error : length c.errors ≤ 1

  report_error-IsSound : (e : ClientError) (c : Client) → IsSound c → IsSound (report_error e c)
  unfolding report_error
  report_error-IsSound e c h = elim (Bool-cases (length c.errors == 0)) [
    | inl z ↦ rw z (record { messages = h.messages; room = h.room; one_error = omega arith })
    | inr z ↦ rw z h
  ]

  stop-IsSound : (c : Client) → IsSound c → IsSound (stop c)
  stop-IsSound c h = record { messages = h.messages; room = h.room; one_error = h.one_error }

  fail-IsSound : (e : ClientError) (c : Client) → IsSound c → IsSound (stop (report_error e c))
  fail-IsSound e c h = stop-IsSound (report_error e c) (report_error-IsSound e c h)

  branch-IsSound : (t : Bool) (c d : Client) → IsSound c → IsSound d → IsSound (if t then c else d)
  branch-IsSound true c d hc hd = hc
  branch-IsSound false c d hc hd = hd

  deliver-IsSound :
      (done : Bool) (m : SignalingMessage) (c : Client)
      → FromServer m
      → IsSound c
      → IsSound (deliver done m c)
  unfolding deliver
  deliver-IsSound done m c hm h = elim (Bool-cases (done && c.cancelled)) [
    | inl d ↦ rw d (stop-IsSound c h)
    | inr d ↦ rw d (elim (Bool-cases (ltb (length c.recv) peer_queue_size)) [
      | inl r ↦ rw r (record {
        messages = All-append FromServer c.recv (m ∷ []) h.messages (hm, tt);
        room = ground (arith, length-append c.recv (m ∷ []));
        one_error = h.one_error;
      })
      | inr r ↦ rw r (
          branch-IsSound c.cancelled (stop c) _ (stop-IsSound c h)
            (fail-IsSound ClientError.consumer_too_slow c h))
    ])
  ]

  read_pump-IsSound :
      (done : Bool) (r : Read) (c : Client)
      → IsSound c
      → IsSound (read_pump u json read_message done r c)
  unfolding read_pump decoded validated
  read_pump-IsSound done (failure true) c h = stop-IsSound c h
  read_pump-IsSound done (failure false) c h = fail-IsSound ClientError.read_failed c h
  read_pump-IsSound done (message false raw) c h = fail-IsSound ClientError.not_text c h
  read_pump-IsSound done (message true raw) c h =
      elim (Result-cases (decode_message read_message raw)) [
        | inl (e, he) ↦ rw he (fail-IsSound (ClientError.invalid e) c h)
        | inr (m, hm) ↦ rw hm (elim (Result-cases (validate_server_message u json m)) [
          | inl (e, he) ↦ rw he (fail-IsSound (ClientError.invalid e) c h)
          | inr (t, ht) ↦ rw ht (deliver-IsSound done m c ht h)
        ])
      ]

  after_head-All : (ms : List SignalingMessage) → All FromServer ms → All FromServer (after_head ms)
  unfolding after_head
  after_head-All [] h = tt
  after_head-All (m ∷ ms) h = h.1

  after_head-length : (ms : List SignalingMessage) → length (after_head ms) ≤ length ms
  unfolding after_head
  after_head-length [] = omega arith
  after_head-length (m ∷ ms) = omega arith

  pub step-IsSound : (e : Event) (c : Client) → IsSound c → IsSound (step u json read_message e c)
  unfolding step
  step-IsSound (read done r) c h = branch-IsSound c.running _ c (read_pump-IsSound done r c h) h
  step-IsSound receive c h = record {
    messages = after_head-All c.recv h.messages;
    room = omega (arith, after_head-length c.recv, h.room);
    one_error = h.one_error;
  }
  step-IsSound cancel c h = record { messages = h.messages; room = h.room; one_error = h.one_error }

  -- The oldest message, if a consumer receives one.
  first : List SignalingMessage → List SignalingMessage
  first [] = []
  first (m ∷ ms) = m ∷ []

  taken : Event → Client → List SignalingMessage
  taken receive c = first c.recv
  taken _ c = []

  -- The client after the events, and what a consumer has received by then.
  unfoldable pub run : List Event → Client → List SignalingMessage × Client
  unfolding taken first
  run [] c = ([], c)
  run (e ∷ events) c =
      let (received, last) = run events (step u json read_message e c) in
      (taken e c ++ received, last)

  first-All : (ms : List SignalingMessage) → All FromServer ms → All FromServer (first ms)
  unfolding first
  first-All [] h = tt
  first-All (m ∷ ms) h = (h.0, tt)

  taken-All : (e : Event) (c : Client) → IsSound c → All FromServer (taken e c)
  unfolding taken
  taken-All (read done r) c h = tt
  taken-All cancel c h = tt
  taken-All receive c h = first-All c.recv h.messages

  -- Over any sequence of reads, receipts and cancellations, from a sound client: every message that
  -- the consumer gets passes the validator for server messages, the channel never holds more than
  -- 256, and at most one error waits.
  pub run-IsSound :
      (events : List Event) (c : Client)
      → IsSound c
      → All FromServer (run events c).0 × IsSound (run events c).1
  unfolding run
  run-IsSound [] c h = (tt, h)
  run-IsSound (e ∷ events) c h =
      let (received, last) =
        run-IsSound events (step u json read_message e c) (step-IsSound e c h) in
      (All-append FromServer (taken e c) _ (taken-All e c h) received, last)
