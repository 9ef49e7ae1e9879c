-- ===== src/Objects.antt =====
-- The Kubernetes objects that the program reads and changes, with the fields that it uses.
use compute_sentry.Prelude.{Bool, Option, none, some, String, List, string_eq}
use compute_sentry.Prelude.Text.{Text}
use compute_sentry.Prelude.Map
use compute_sentry.Prelude.Map.{Map}

-- corev1.EnvVar: a literal value, or the path of a field of the pod.
pub record EnvVar : Type 0 where
  pub name : String
  pub value : String
  pub value_from : Option String

pub record VolumeMount : Type 0 where
  pub name : String
  pub mount_path : String
  pub read_only : Bool

-- `env` alone decides on the variables: envFrom, at which the code does not look either, is left out.
pub record Container : Type 0 where
  pub name : String
  pub image : String
  pub command : List String
  pub env : List EnvVar
  pub limits : Map String String
  pub volume_mounts : List VolumeMount

pub record Volume : Type 0 where
  pub name : String
  pub host_path : String

pub record PodSpec : Type 0 where
  pub node_name : Text
  pub containers : List Container
  pub init_containers : List Container
  pub volumes : List Volume

-- `annotations` is a Go map: `none` is nil.
pub record Pod : Type 0 where
  pub name : Text
  pub namespace : Text
  pub labels : Map String String
  pub annotations : Option (Map String String)
  pub spec : PodSpec

-- A read of a map that may be nil.
unfoldable pub annotation : String → Pod → Option String
unfolding Map.lookup
annotation key pod = elim pod.annotations [ none ↦ none | some m ↦ Map.lookup key m ]

pub record Taint : Type 0 where
  pub key : String
  pub value : String
  pub effect : String

pub record Node : Type 0 where
  pub name : Text
  pub labels : Map String String
  pub taints : List Taint
