-- ===== src/Collector/Stream.antt =====
-- What the loop of `listen` makes of a stream of reads.
use compute_sentry.Prelude.{
  ℕ, ◌<◌, ◌≤◌, ◌≡◌, refl, ap, none, List, [], ◌∷◌, length, take, zero, suc, ◌∙◌, arith,
}
use compute_sentry.Collector.{
  MetricEvent, Read, failed, datagram, decode, receive, listen, event_size, buffer_size,
}
use compute_sentry.Collector.Layout.{encode, FitsLayout, decode-encode, length-encode}

take_short {ℓ} : {A : Type ℓ} (n : ℕ) (xs : List A) → length xs ≤ n → take n xs ≡ xs
take_short zero [] h = refl
take_short zero (x ∷ xs) h = absurd (omega arith)
take_short (suc n) [] h = refl
take_short (suc n) (x ∷ xs) h = ap (◌∷◌ x) (take_short n xs (omega arith))

decode_short : (buf : List ℕ) → length buf < event_size → decode buf ≡ none
unfolding decode
decode_short buf h = ground arith

-- The test for 24 bytes decides nothing: a datagram that the buffer holds is received exactly as
-- `decode` reads it, which refuses anything below the 184 bytes of the struct.
pub receive-datagram :
    (bytes : List ℕ) → length bytes ≤ buffer_size → receive (datagram bytes) ≡ decode bytes
unfolding receive decode
receive-datagram bytes h = rw (take_short buffer_size bytes h) (ground arith)

-- The reads that a sequence of sent events can give: failed reads and short datagrams may stand
-- anywhere between the events.
pub data Arrives : List Read → List MetricEvent → Type 0 where
  done : Arrives [] []
  event :
      {reads : List Read} {events : List MetricEvent} (e : MetricEvent) (padding : List ℕ)
      → FitsLayout e padding
      → Arrives reads events
      → Arrives (datagram (encode e padding) ∷ reads) (e ∷ events)
  fault :
      {reads : List Read} {events : List MetricEvent}
      → Arrives reads events
      → Arrives (failed ∷ reads) events
  short :
      {reads : List Read} {events : List MetricEvent} (bytes : List ℕ)
      → length bytes < event_size
      → Arrives reads events
      → Arrives (datagram bytes ∷ reads) events

-- Whatever fails in between, `listen` passes on every event that arrives whole, once, unchanged and
-- in order, and nothing else.
pub listen-Arrives :
    {reads : List Read} {events : List MetricEvent} → Arrives reads events → listen reads ≡ events
unfolding listen receive
listen-Arrives done = refl
listen-Arrives (event e padding fits a) =
    let l = length-encode e padding fits in
    let known = receive-datagram (encode e padding) (omega arith) ∙ decode-encode e padding fits in
    rw (known, listen) (ap (◌∷◌ e) (listen-Arrives a))
listen-Arrives (fault a) = listen-Arrives a
listen-Arrives (short bytes h a) =
    rw (receive-datagram bytes (omega arith) ∙ decode_short bytes h, listen) (listen-Arrives a)
