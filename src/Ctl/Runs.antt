-- ===== src/Ctl/Runs.antt =====
-- The theorem about the control program at a concrete server.
use sane_in_the_membrane.Common.{
  ℕ, ◌≡◌, List, some, true, false, arith, replicate, length, length-replicate, drop,
}
use sane_in_the_membrane.Ipc.Text.{port_prefix, read_number}
use sane_in_the_membrane.Ctl.{printed, main, with_server}
use sane_in_the_membrane.Ctl.Asking.{main-printed}

main-printed_example :
    (bytes : List ℕ) × (main true true
        (with_server "1000" true 50051 (replicate 1024 0))
        "1000"
        false
      ≡ printed bytes)
    × (read_number 0 (drop (length port_prefix) bytes) ≡ some 50051)
main-printed_example =
    main-printed "1000" true false 50051 (replicate 1024 0) (omega arith)
      (length-replicate {A = ℕ} 1024 0)
