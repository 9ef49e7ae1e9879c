-- ===== src/Tests/Agent.antt =====
-- The exporter's labels, the main loop, and the distribution of a file.
use compute_sentry.Prelude.{
  Bool, List, not, exists, ◌++◌, none, ◌≤◌, ◌↔◌, true, false, some, [], ◌∷◌, ◌≡◌, refl, arith,
  length,
}
use compute_sentry.Prelude.Int.{pos}
use compute_sentry.Prelude.Text.{Text, codes, until_nul, text_eq, text_beq}
use compute_sentry.Prelude.Map
use compute_sentry.Evaluator.{new_health_evaluator, chan_capacity}
use compute_sentry.Exporter.{Exporter, trim_right_nul}
use compute_sentry.Exporter.Labels.{IsZeros, from_nul, trim_right_nul-until_nul}
use compute_sentry.Agent.{
  readable, default_flags, install, install_script, start_collector, copy_opened, create,
  write_content, chmod, Agent, forward, FileSystem, Calls, distribute_file,
}
use compute_sentry.Agent.Forward.{calls_of, filled, forward_lem}
use compute_sentry.Agent.Installation.{install_lem}
use compute_sentry.Agent.Panic.{RefusesBytes, forward-panics}
use compute_sentry.Exporter.Utf8.{is_utf8, is_utf8_from}
use compute_sentry.Collector.{MetricEvent}
use compute_sentry.Mutator.{spy_library}
use compute_sentry.Agent.Distribution.{IsCopied, distribute_file_lem}
use compute_sentry.Tests.Collector.{all_reduce}

trim_right_nul-until_nul_example :
    (trim_right_nul all_reduce.gpu_model ≡ until_nul all_reduce.gpu_model)
    ↔ IsZeros (from_nul all_reduce.gpu_model)
trim_right_nul-until_nul_example = trim_right_nul-until_nul all_reduce.gpu_model

-- The two readings part where a shorter text was written over a longer one.
stale_bytes :
    (trim_right_nul (72 ∷ 49 ∷ 0 ∷ 48 ∷ 0 ∷ []) ≡ 72 ∷ 49 ∷ 0 ∷ 48 ∷ [])
    × (until_nul (72 ∷ 49 ∷ 0 ∷ 48 ∷ 0 ∷ []) ≡ 72 ∷ 49 ∷ [])
unfolding trim_right_nul until_nul text_beq
stale_bytes = (refl, refl)

abbrev node_exporter : Exporter
node_exporter = record {
  addr = codes ":9091";
  node_name = codes "node-a";
  switch_id = codes "sw-1";
  rack_id = codes "rack-1";
  node_gpu_model = codes "H100";
}

abbrev agent : Agent
agent = record {
  exporter = node_exporter;
  calls = [];
  evaluator = new_health_evaluator (pos 10) (pos 5) (pos 500);
}

empty_channel : length agent.evaluator.metrics_chan ≤ chan_capacity
unfolding new_health_evaluator
empty_channel = omega arith

forward_lem_example :
    forward (λ labels. true) (all_reduce ∷ all_reduce ∷ []) agent
    ≡ some (record agent {
      calls = calls_of node_exporter (all_reduce ∷ all_reduce ∷ []);
      evaluator = filled agent.evaluator (all_reduce ∷ all_reduce ∷ []);
    })
forward_lem_example =
    forward_lem (λ labels. true) (all_reduce ∷ all_reduce ∷ []) agent (refl, (refl, tt))
      empty_channel

abbrev image : FileSystem
image = record {
  directories = [];
  files = (codes "/app/lib/spy.so", record { content = 127 ∷ 69 ∷ []; mode = 420 }) ∷ [];
}

abbrev all_ok : Calls
all_ok = record {
  mkdir_ok = true;
  open_ok = true;
  create_ok = true;
  copy_ok = true;
  copied = 0;
  chmod_ok = true;
}

abbrev disk_full : Calls
disk_full = record all_ok { copy_ok = false; copied = 1 }

distribute_file_lem_example :
    IsCopied disk_full
      (codes "/opt/lib/spy.so")
      (record { content = 127 ∷ 69 ∷ []; mode = 420 })
      (distribute_file 420 disk_full
        (codes "/opt/lib")
        (codes "/app/lib/spy.so")
        (codes "/opt/lib/spy.so")
        image)
distribute_file_lem_example =
    distribute_file_lem 420 disk_full (codes "/opt/lib") (codes "/app/lib/spy.so")
      (codes "/opt/lib/spy.so") (record { content = 127 ∷ 69 ∷ []; mode = 420 })
      (unfold text_beq in refl) image (unfold Map.lookup text_beq in refl)

abbrev container_image : FileSystem
container_image = record {
  directories = [];
  files =
      (codes "/app/lib/libcompute-sentry-spy.so", record { content = 127 ∷ 69 ∷ []; mode = 420 })
      ∷ (codes "/app/bin/precheck.sh", record { content = 35 ∷ 33 ∷ []; mode = 420 })
      ∷ [];
}

abbrev agent_dirs : Text × Text
agent_dirs = (codes "/opt/compute-sentry/lib", codes "/opt/compute-sentry/bin")

nothing_fails : (install default_flags 420 all_ok all_ok agent_dirs true container_image).1 ≡ none
unfolding install install_script start_collector distribute_file copy_opened create write_content
    chmod Map.lookup Map.insert Map.erase text_beq
nothing_fails = refl

-- With the default flags: the library stands where the webhook's LD_PRELOAD names it, and the script
-- where the precheck runs it.
install_lem_example :
    (Map.lookup
        (codes spy_library)
        (install default_flags 420 all_ok all_ok agent_dirs true container_image).0.files
      ≡ some (record { content = 127 ∷ 69 ∷ []; mode = readable }))
    × (Map.lookup
          (codes "/opt/compute-sentry/bin/precheck.sh")
          (install default_flags 420 all_ok all_ok agent_dirs true container_image).0.files
        ≡ some (record { content = 35 ∷ 33 ∷ []; mode = readable }))
install_lem_example =
    install_lem default_flags 420 all_ok all_ok agent_dirs true container_image
      (record { content = 127 ∷ 69 ∷ []; mode = 420 })
      (record { content = 35 ∷ 33 ∷ []; mode = 420 }) (unfold text_beq in refl)
      (unfold text_beq in refl) (unfold text_beq in refl) (unfold text_beq in refl)
      (unfold Map.lookup text_beq in refl) (unfold Map.lookup text_beq in refl) nothing_fails

-- A client that looks at nothing else, and an event with a byte left behind its GPU model.
abbrev takes_utf8 : List Text → Bool
takes_utf8 values = not (exists (λ v. not (is_utf8 v)) values)

takes_utf8-RefusesBytes : RefusesBytes takes_utf8
takes_utf8-RefusesBytes values h = rw h refl

abbrev stray_byte : MetricEvent
stray_byte = record all_reduce { gpu_model = 72 ∷ 49 ∷ 0 ∷ 255 ∷ [] }

forward-panics_example : forward takes_utf8 ((all_reduce ∷ []) ++ stray_byte ∷ []) agent ≡ none
forward-panics_example =
    forward-panics takes_utf8 takes_utf8-RefusesBytes (all_reduce ∷ []) stray_byte [] agent
      (unfold trim_right_nul is_utf8_from text_beq in refl)

-- A text of every length, and three that are not UTF-8: cut off, overlong, a surrogate.
utf8_texts :
    (is_utf8 (72 ∷ 195 ∷ 188 ∷ 226 ∷ 130 ∷ 172 ∷ 240 ∷ 159 ∷ 152 ∷ 128 ∷ []) ≡ true)
    × (is_utf8 (72 ∷ 195 ∷ []) ≡ false)
    × (is_utf8 (224 ∷ 130 ∷ 172 ∷ []) ≡ false)
    × (is_utf8 (237 ∷ 160 ∷ 128 ∷ []) ≡ false)
unfolding is_utf8_from
utf8_texts = (refl, refl, refl, refl)
