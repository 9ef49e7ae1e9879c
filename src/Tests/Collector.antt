-- ===== src/Tests/Collector.antt =====
-- The collector on a datagram of the spy library.
use compute_sentry.Prelude.{
  true, false, ◌≢◌, ℕ, suc, zero, none, some, List, [], ◌∷◌, ◌≡◌, refl, arith,
}
use compute_sentry.Prelude.Int.{pos}
use compute_sentry.Prelude.Text.{Text, codes}
use compute_sentry.Collector.Socket.{
  SocketCalls, SocketFile, chmod_error, socket_mode, start_socket, is_startable, start_socket_lem,
}
use compute_sentry.Collector.{MetricEvent, failed, datagram, decode, listen}
use compute_sentry.Collector.Layout.{encode, FitsLayout, decode-encode}
use compute_sentry.Collector.Stream.{Arrives, listen-Arrives}

-- A text in a buffer of so many bytes, with NULs behind it.
abbrev pub buffer : ℕ → Text → List ℕ
buffer zero text = []
buffer (suc size) [] = 0 ∷ buffer size []
buffer (suc size) (c ∷ text) = c ∷ buffer size text

abbrev pub all_reduce : MetricEvent
all_reduce = record {
  type = pos 0;
  gpu_model = buffer 32 (codes "H100");
  pod_name = buffer 64 (codes "job");
  pod_namespace = buffer 64 (codes "training");
  duration_us = pos 900;
  count = 1;
}

abbrev pub hole : List ℕ
hole = 0 ∷ 0 ∷ 0 ∷ 0 ∷ []

all_reduce-FitsLayout : FitsLayout all_reduce hole
all_reduce-FitsLayout = record {
  type = omega arith;
  gpu_model = refl;
  pod_name = refl;
  pod_namespace = refl;
  padding = refl;
  duration_us = omega arith;
  count = omega arith;
}

decode-encode_example : decode (encode all_reduce hole) ≡ some all_reduce
decode-encode_example = decode-encode all_reduce hole all_reduce-FitsLayout

pub some_reads :
    Arrives
      (failed ∷ datagram (encode all_reduce hole) ∷ datagram (codes "noise") ∷ [])
      (all_reduce ∷ [])
some_reads = Arrives.fault (
    Arrives.event all_reduce hole all_reduce-FitsLayout
      (Arrives.short (codes "noise") (omega arith) Arrives.done))

listen-Arrives_example :
    listen (failed ∷ datagram (encode all_reduce hole) ∷ datagram (codes "noise") ∷ [])
    ≡ all_reduce ∷ []
listen-Arrives_example = listen-Arrives some_reads

-- A file of an earlier run is at the path, and every call succeeds.
abbrev calls_succeed : SocketCalls
calls_succeed = record {
  stat_fails = false;
  remove_fails = false;
  resolve_fails = false;
  bind_fails = false;
  chmod_fails = false;
  new_mode = 493;
}

abbrev stale_socket : SocketFile
stale_socket = record { exists = true; mode = 511; is_read = false }

start_socket_lem_example :
    (is_startable calls_succeed stale_socket ≡ true
      → start_socket calls_succeed stale_socket
        ≡ (record { exists = true; mode = socket_mode; is_read = true }, none))
    × (is_startable calls_succeed stale_socket ≡ false
        → (start_socket calls_succeed stale_socket).1 ≢ none)
    × ((start_socket calls_succeed stale_socket).1 ≡ some chmod_error
        → (start_socket calls_succeed stale_socket).0
          ≡ record { exists = true; mode = calls_succeed.new_mode; is_read = false })
start_socket_lem_example = start_socket_lem calls_succeed stale_socket
