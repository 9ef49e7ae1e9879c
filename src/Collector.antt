-- ===== src/Collector.antt =====
-- agent/collector/collector.go: the events of the spy library, as they come over the socket.
mod Bytes
pub mod Layout
pub mod Stream
pub mod Socket
unfoldable pub use Bytes.{le_value}
use Bytes.{field}
use compute_sentry.Prelude.{
  ℕ, ◌-◌, ◌^◌, Bool, Option, none, some, List, [], ◌∷◌, length, take, drop, ltb, if◌then◌else◌,
}
use compute_sentry.Prelude.Int.{ℤ, pos, negsuc, signed64}

pub record MetricEvent : Type 0 where
  pub type : ℤ
  pub gpu_model : List ℕ
  pub pod_name : List ℕ
  pub pod_namespace : List ℕ
  pub duration_us : ℤ
  pub count : ℕ

abbrev pub nccl_all_reduce : ℤ
nccl_all_reduce = pos 0

abbrev pub cuda_malloc : ℤ
cuda_malloc = pos 1

abbrev pub cuda_memcpy : ℤ
cuda_memcpy = pos 2

-- The signed value of a 32-bit pattern.
abbrev pub signed32 : ℕ → ℤ
signed32 r = if ltb r (2 ^ 31) then pos r else negsuc (2 ^ 32 - 1 - r)

-- binary.Size(event): 4 + 32 + 64 + 64, the padding of 4, 8 + 8
abbrev pub event_size : ℕ
event_size = 184

-- binary.Read(bytes.NewReader(buf), binary.LittleEndian, &event): too few bytes are an error, and
-- what stands behind the struct is not read.
unfoldable pub decode : List ℕ → Option MetricEvent
unfolding field
decode buf =
    if ltb (length buf) event_size
    then none
    else some (record {
      type = signed32 (le_value (field 0 4 buf));
      gpu_model = field 4 32 buf;
      pod_name = field 36 64 buf;
      pod_namespace = field 100 64 buf;
      duration_us = signed64 (le_value (field 168 8 buf));
      count = le_value (field 176 8 buf);
    })

-- What one call of `conn.Read(buf)` gives: an error, or the bytes of a datagram.
pub data Read : Type 0 where
  failed : Read
  datagram : List ℕ → Read

abbrev pub buffer_size : ℕ
buffer_size = 1024

-- One round of the loop of `listen`: the event that it sends on, if any. A datagram longer than the
-- buffer is cut.
unfoldable pub receive : Read → Option MetricEvent
receive failed = none
receive (datagram bytes) =
    let buf = take buffer_size bytes in if ltb (length buf) 24 then none else decode buf

-- The loop of `listen`, over the reads in their order: the events sent to `MetricsChan`.
unfoldable pub listen : List Read → List MetricEvent
listen [] = []
listen (r ∷ reads) =
    let rest = listen reads in elim (receive r) [ none ↦ rest | some event ↦ event ∷ rest ]
