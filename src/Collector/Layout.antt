-- ===== src/Collector/Layout.antt =====
-- The wire layout of spy/include/queue.h, and `decode`.
use compute_sentry.Collector.Bytes.{
  le_bytes, length-le_bytes, le_value-le_bytes, field, field_here, field_past,
}
use mathlib.Core.List.{append-nil}
use compute_sentry.Prelude.{
  ℕ, ◌+◌, ◌-◌, ◌^◌, ◌<◌, ◌≡◌, some, List, [], ◌++◌, length, arith, ◌∙◌, length-append,
}
use compute_sentry.Prelude.Int.{ℤ, pos, negsuc, IsInt64, signed64}
use compute_sentry.Collector.{MetricEvent, signed32, decode}

-- The patterns of an int and of a long long.
abbrev pub unsigned32 : ℤ → ℕ
unsigned32 (pos n) = n
unsigned32 (negsuc n) = 2 ^ 32 - 1 - n

abbrev pub unsigned64 : ℤ → ℕ
unsigned64 (pos n) = n
unsigned64 (negsuc n) = 2 ^ 64 - 1 - n

abbrev IsInt32 : ℤ → Type 0
IsInt32 (pos n) = n < 2 ^ 31
IsInt32 (negsuc n) = n < 2 ^ 31

-- The event as the C++ struct lies in memory, little-endian; `padding` fills the hole in front of
-- the first 64-bit field.
pub encode : MetricEvent → List ℕ → List ℕ
encode e padding =
    le_bytes 4 (unsigned32 e.type)
    ++ (e.gpu_model
        ++ (e.pod_name
            ++ (e.pod_namespace
                ++ (padding ++ (le_bytes 8 (unsigned64 e.duration_us) ++ le_bytes 8 e.count)))))

-- The fields have the sizes and the ranges of the struct.
pub record FitsLayout (e : MetricEvent) (hole : List ℕ) : Type 0 where
  pub type : IsInt32 e.type
  pub gpu_model : length e.gpu_model ≡ 32
  pub pod_name : length e.pod_name ≡ 64
  pub pod_namespace : length e.pod_namespace ≡ 64
  pub padding : length hole ≡ 4
  pub duration_us : IsInt64 e.duration_us
  pub count : e.count < 2 ^ 64

signed32-unsigned32 : (a : ℤ) → IsInt32 a → signed32 (unsigned32 a) ≡ a
signed32-unsigned32 (pos n) h = ground arith
signed32-unsigned32 (negsuc n) h = ground arith

signed64-unsigned64 : (a : ℤ) → IsInt64 a → signed64 (unsigned64 a) ≡ a
signed64-unsigned64 (pos n) h = ground arith
signed64-unsigned64 (negsuc n) h = ground arith

unsigned32-lt : (a : ℤ) → IsInt32 a → unsigned32 a < 256 ^ 4
unsigned32-lt (pos n) h = omega arith
unsigned32-lt (negsuc n) h = omega arith

unsigned64-lt : (a : ℤ) → IsInt64 a → unsigned64 a < 256 ^ 8
unsigned64-lt (pos n) h = omega arith
unsigned64-lt (negsuc n) h = omega arith

module _ (e : MetricEvent) (padding : List ℕ) (fits : FitsLayout e padding) where
  abbrev pub wire : List ℕ
  wire = encode e padding

  pub length-encode : length wire ≡ 184
  unfolding encode
  length-encode =
      simp
        (
          length-append, length-le_bytes, fits.gpu_model, fits.pod_name, fits.pod_namespace,
          fits.padding,
        )
        (omega arith)

  type_field : field 0 4 wire ≡ le_bytes 4 (unsigned32 e.type)
  unfolding encode
  type_field = field_here 4 _ _ (length-le_bytes 4 _)

  gpu_field : field 4 32 wire ≡ e.gpu_model
  unfolding encode
  gpu_field = field_past 4 0 32 _ _ (length-le_bytes 4 _) ∙ field_here 32 _ _ fits.gpu_model

  -- What stands behind the GPU model, at its offset less 36.
  behind_gpu :
      (offset k : ℕ) (t : List ℕ)
      → field (4 + (32 + offset)) k (le_bytes 4 (unsigned32 e.type) ++ (e.gpu_model ++ t))
        ≡ field offset k t
  behind_gpu offset k t =
      field_past 4 (32 + offset) k _ _ (length-le_bytes 4 _)
      ∙ field_past 32 offset k _ _ fits.gpu_model

  -- What stands behind the names, at its offset less 164.
  behind_names :
      (offset k : ℕ) (t : List ℕ)
      → field (64 + (64 + offset)) k (e.pod_name ++ (e.pod_namespace ++ t)) ≡ field offset k t
  behind_names offset k t =
      field_past 64 (64 + offset) k _ _ fits.pod_name
      ∙ field_past 64 offset k _ _ fits.pod_namespace

  name_field : field 36 64 wire ≡ e.pod_name
  unfolding encode
  name_field = behind_gpu 0 64 _ ∙ field_here 64 _ _ fits.pod_name

  namespace_field : field 100 64 wire ≡ e.pod_namespace
  unfolding encode
  namespace_field =
      behind_gpu 64 64 _
      ∙ field_past 64 0 64 _ _ fits.pod_name
      ∙ field_here 64 _ _ fits.pod_namespace

  duration_field : field 168 8 wire ≡ le_bytes 8 (unsigned64 e.duration_us)
  unfolding encode
  duration_field =
      behind_gpu 132 8 _
      ∙ behind_names 4 8 _
      ∙ field_past 4 0 8 _ _ fits.padding
      ∙ field_here 8 _ _ (length-le_bytes 8 _)

  count_field : field 176 8 wire ≡ le_bytes 8 e.count
  unfolding encode
  count_field =
      behind_gpu 140 8 _
      ∙ behind_names 12 8 _
      ∙ field_past 4 8 8 _ _ fits.padding
      ∙ field_past 8 0 8 _ _ (length-le_bytes 8 _)
      ∙ (rw append-nil at (field_here 8 (le_bytes 8 e.count) [] (length-le_bytes 8 _)))

  -- An event that the spy library sends is received as it was: `decode` reads each field at its place
  -- in the C++ struct, whatever fills the padding.
  pub decode-encode : decode (encode e padding) ≡ some e
  unfolding decode
  decode-encode = rw (
    length-encode,
    type_field,
    gpu_field,
    name_field,
    namespace_field,
    duration_field,
    count_field,
    le_value-le_bytes 4 _ (unsigned32-lt _ fits.type),
    le_value-le_bytes 8 _ (unsigned64-lt _ fits.duration_us),
    le_value-le_bytes 8 _ fits.count,
    signed32-unsigned32 _ fits.type,
    signed64-unsigned64 _ fits.duration_us,
  )
