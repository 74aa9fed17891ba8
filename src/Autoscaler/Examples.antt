-- ===== src/Autoscaler/Examples.antt =====
-- The autoscaler on a cluster with 50 units of capacity wanted and 10 there, of which a request takes half.
use clusterman.Base.{ℕ, String, ◌≡◌, refl, ◌⊎◌, true, false, List, [], ◌∷◌, ltb, none, some, arith}
use clusterman.Base.Fraction.{Fraction, frac, le_f, div_f, distance_f}
use clusterman.Autoscaler.{AutoscalingConfig, ok, Row, compute_target_capacity}
use clusterman.Autoscaler.Target.{IsEnough, compute_target_capacity-IsEnough}
use clusterman.Autoscaler.History.{Smoothed}
use clusterman.Autoscaler.Run.{
  Environment, request, reload_state, terminate_orphans, modify_capacity, run, run-returned,
}

abbrev config : AutoscalingConfig
config = record {
  excluded_resources = "gpus" ∷ [];
  setpoint = record { num = 1; den = 2 };
  target_capacity_margin = record { num = 1; den = 10 };
  prevent_scale_down_after_capacity_loss = true;
  instance_loss_threshold = 3;
  recycle_orphan_instances = true;
  orphan_instance_uptime_threshold_seconds = 1800;
}

abbrev rows : List Row
rows =
    record { resource = "cpus"; requested = some 100; total = 200 }
    ∷ record { resource = "mem"; requested = some 10; total = 100 }
    ∷ record { resource = "disk"; requested = none; total = 0 }
    ∷ record { resource = "gpus"; requested = none; total = 0 }
    ∷ []

abbrev gpu_rows : List Row
gpu_rows =
    record { resource = "cpus"; requested = none; total = 200 }
    ∷ record { resource = "gpus"; requested = some 4; total = 8 }
    ∷ []

-- The fraction that the code computes for 10
abbrev ten : Fraction
ten = record { num = 2000; den = 200 }

abbrev environment : Environment
environment = record {
  config = config;
  is_paused = false;
  signal = some (request rows);
  default_signal = some (request rows);
  num_removed_nodes = 5;
  target_capacity = ok 50;
  non_orphan_fulfilled_capacity = 10;
  history = [];
  modify_answer = none;
}

compute_target_capacity-IsEnough_example :
    (scaled : Fraction) × IsEnough config 10 rows scaled
    × ((ten ≡ scaled)
        ⊎ (ten ≡ frac 50)
          × (le_f config.target_capacity_margin (div_f (distance_f scaled (frac 50)) (frac 50))
              ≡ false))
unfolding compute_target_capacity
compute_target_capacity-IsEnough_example =
    compute_target_capacity-IsEnough config 50 10 [] rows ten refl (ground arith) (ground arith)
      refl

run-returned_example :
    (environment.is_paused ≡ true) × ((run environment false).0 ≡ [])
    ⊎ ((rs : List Row) × (current : ℕ) × (new : Fraction) × (environment.is_paused ≡ false)
        × (environment.signal ≡ some (request rs))
        × (environment.target_capacity ≡ ok current)
        × (compute_target_capacity environment.config current
              environment.non_orphan_fulfilled_capacity environment.history rs
            ≡ ok new)
        × (environment.modify_answer ≡ none)
        × ((run environment false).0
            ≡ reload_state
              ∷ terminate_orphans 1800 false
              ∷ modify_capacity new false (ltb 3 environment.num_removed_nodes)
              ∷ []))
unfolding run
run-returned_example = run-returned environment false refl

abbrev metrics : String → ℕ → ℕ → List (ℕ × ℕ)
metrics name time_start time_end = (100, 0) ∷ (200, 40) ∷ (300, 60) ∷ []

abbrev smoothed : Smoothed
smoothed = record { time_start = 200; time_end = 300; value = record { num = 100; den = 2 } }
