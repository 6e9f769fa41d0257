-- ===== src/Tests/Texts.antt =====
-- Descriptions of processes and configurations, and the memory with segments.
use hcmut_os_ossim_sierra.Prelude.{ℕ, ◌+◌, ◌%◌, ◌≡◌, refl, some, List, [], ◌∷◌, map, arith, take}
use hcmut_os_ossim_sierra.Cpu.{calc_op, read_op, syscall_op, Inst}
use hcmut_os_ossim_sierra.Loader.{Unset, load, ok}
use hcmut_os_ossim_sierra.Loader.RoundTrip.{print_process, load-print_process}
use hcmut_os_ossim_sierra.Os.Config.{read_config, Entry}
use hcmut_os_ossim_sierra.Os.Config.RoundTrip.{
  ProcLine, LineFits, process_at, print_config, read_config-print_config,
}
use hcmut_os_ossim_sierra.Mem.{get_first_lv, get_second_lv, get_offset}
use hcmut_os_ossim_sierra.Mem.Refusal.{segment_split}
use hcmut_os_ossim_sierra.Prelude.{◌*◌, ◌<◌}

abbrev sevens : Inst
sevens = record { opcode = calc_op; arg_0 = 7; arg_1 = 7; arg_2 = 7; arg_3 = 7 }

abbrev unset : Unset
unset = record { priority = 7; size = 7; opcode = []; buf = []; text = λ _. sevens }

-- "calc", "read 1 20 5" and "syscall 101 1 0 0".
abbrev program : List Inst
program =
    sevens
    ∷ record { opcode = read_op; arg_0 = 1; arg_1 = 20; arg_2 = 5; arg_3 = 7 }
    ∷ record { opcode = syscall_op; arg_0 = 101; arg_1 = 1; arg_2 = 0; arg_3 = 0 }
    ∷ []

load-print_process_example :
    load unset 3 (112 ∷ 48 ∷ []) (some (print_process 20 program))
    ≡ ok (
      record {
        pid = 3;
        priority = 20;
        path = take 16 (112 ∷ 48 ∷ []);
        code = program;
        pc = 0;
        bp = 1024;
      },
      (3 + 1) % 4294967296,
    )
load-print_process_example =
    load-print_process unset 3 20 (112 ∷ 48 ∷ []) program (omega arith) (omega arith) (ground arith)

-- "1 p0 4"
abbrev p0_line : ProcLine
p0_line = record { start_time = 1; name = 112 ∷ 48 ∷ []; prio = 4 }

p0_line-LineFits : LineFits p0_line
p0_line-LineFits = record {
  nonempty = omega arith;
  short = omega arith;
  spaceless = (refl, (refl, tt));
  start_small = omega arith;
  prio_small = omega arith;
}

abbrev no_entry : Entry
no_entry = record { start_time = 9; name = []; prio = 9; rest = [] }

abbrev swaps : List ℕ
swaps = 4096 ∷ 0 ∷ 0 ∷ 0 ∷ []

read_config-print_config_example :
    read_config
      (1 ∷ 2 ∷ 3 ∷ 4 ∷ 5 ∷ [])
      (λ _. no_entry)
      []
      (some (print_config 2 1 2048 swaps (p0_line ∷ [])))
    ≡ ok (record {
      time_slot = 2;
      num_cpus = 1;
      num_processes = 1;
      memramsz = 2048;
      memswpsz = swaps;
      processes = map process_at (p0_line ∷ []);
    })
read_config-print_config_example =
    read_config-print_config (1 ∷ 2 ∷ 3 ∷ 4 ∷ 5 ∷ []) (λ _. no_entry) [] 2 1 2048 swaps
      (p0_line ∷ []) refl refl (ground arith) (p0_line-LineFits, tt)

segment_split_example :
    (get_first_lv 300000 * 32768 + get_second_lv 300000 * 1024 + get_offset 300000 ≡ 300000)
    × (get_first_lv 300000 < 32)
    × (get_second_lv 300000 < 32)
    × (get_offset 300000 < 1024)
segment_split_example = segment_split 300000 (omega arith)
