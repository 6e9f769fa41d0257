-- ===== src/Tests/Programs.antt =====
-- `killall` and programs.
use hcmut_os_ossim_sierra.Prelude.{
  ℕ, ◌+◌, ◌≤◌, ◌<◌, ◌≡◌, refl, ap, [], ◌∷◌, none, some, true, arith, ◌==◌, if◌then◌else◌,
}
use hcmut_os_ossim_sierra.Word.{u32}
use hcmut_os_ossim_sierra.Pte.Fields.{fpn_of_lem}
use hcmut_os_ossim_sierra.Pte.Address.{offst_of_lem}
use hcmut_os_ossim_sierra.Queue.{Queue}
use hcmut_os_ossim_sierra.Queue.Contents.{contents}
use hcmut_os_ossim_sierra.Mm.{Caller}
use hcmut_os_ossim_sierra.Vm.Overlap.{HasArea}
use hcmut_os_ossim_sierra.Libmem.Paging.{region_addr}
use hcmut_os_ossim_sierra.Libmem.Paging.Access.{InRam, cell_of}
use hcmut_os_ossim_sierra.Killall.{
  purge_queue, read_name, sys_killall, c_string, after_slash, base_name, same_name,
}
use hcmut_os_ossim_sierra.Killall.Purge.{kept, ended, purge_queue_lem}
use hcmut_os_ossim_sierra.Killall.Name.{HasByte, read_name_lem}
use hcmut_os_ossim_sierra.Killall.TwoLists.{sys_killall-use_after_free}
use hcmut_os_ossim_sierra.Syscall.{Env}
use hcmut_os_ossim_sierra.Cpu.{Inst, Process, calc_op, read_op, write_op, run}
use hcmut_os_ossim_sierra.Cpu.Progress.{run_times, run_times-end, execute_all, finished}
use hcmut_os_ossim_sierra.Sched.{Sched}
use hcmut_os_ossim_sierra.Tests.Machine.{process, in_frame_1, in_frame_1-present}
use hcmut_os_ossim_sierra.Tests.Scheduling.{five, five-IsValid, one_ready}

purge_queue_example :
    (t : Queue) × (purge_queue (λ p. p == 5) five (9 ∷ [])
      ≡ some (t, ended (λ p. p == 5) (5 ∷ []) (9 ∷ [])))
    × (contents t ≡ kept (λ p. p == 5) (5 ∷ []))
purge_queue_example = purge_queue_lem (λ p. p == 5) five (9 ∷ []) five-IsValid (refl, tt)

-- Every page of this process is in frame 1, which holds the name "a" and then bytes 255.
abbrev named : Caller
named = record (process (λ _. in_frame_1) 512 [] [] []) {
  mram = record {
    storage = λ a. if a == 256 then 97 else 255;
    maxsz = 1024;
    rdmflg = 1;
    cursor = 0;
    free_fp_list = [];
    used_fp_list = [];
  };
}

named-HasArea : HasArea named 512
named-HasArea = record { free = []; area = refl }

named-InRam : (addr : ℕ) → InRam named addr
named-InRam addr = record {
  present = in_frame_1-present;
  frame = record {
    random = omega arith;
    small = omega arith;
    inside = omega (arith, fpn_of_lem in_frame_1);
  };
}

cell_named : (i : ℕ) → i < 256 → cell_of named (region_addr named.mm 2 i) ≡ 256 + i
cell_named i h = omega (arith, fpn_of_lem in_frame_1, offst_of_lem (u32 (0 + i)))

byte_0 : HasByte named 2 0 97
byte_0 = record {
  in_ram = named-InRam (region_addr named.mm 2 0);
  byte = ap named.mram.storage (cell_named 0 (omega arith));
}

byte_1 : HasByte named 2 1 255
byte_1 = record {
  in_ram = named-InRam (region_addr named.mm 2 1);
  byte = ap named.mram.storage (cell_named 1 (omega arith));
}

read_name_example :
    (◌<◌ 1 100 → HasByte named 2 (0 + 1) 255 → read_name 100 [] 0 named 2 0 ≡ some (97 ∷ [], named))
    × (◌≤◌ 100 1 → read_name 100 [] 0 named 2 0 ≡ none)
read_name_example =
    read_name_lem (97 ∷ []) 100 [] 0 named 512 2 0 named-HasArea (omega arith)
      (byte_0, omega arith, tt)

same_path : same_name (base_name (47 ∷ 97 ∷ [])) (c_string (97 ∷ [])) ≡ true
unfolding same_name base_name after_slash c_string
same_path = refl

sys_killall_example : sys_killall (λ _. 47 ∷ 97 ∷ []) [] 0 one_ready named 2 ≡ none
sys_killall_example =
    sys_killall-use_after_free (λ _. 47 ∷ 97 ∷ []) [] 0 one_ready named 2 5 3 (97 ∷ []) named
      (read_name_example.0 (omega arith) byte_1) same_path (omega arith) refl refl

abbrev env : Env
env = record { path = λ _. 47 ∷ 97 ∷ []; stale = []; junk = 0 }

abbrev write_then_read : Process
write_then_read = record {
  caller = named;
  code =
      record { opcode = write_op; arg_0 = 200; arg_1 = 2; arg_2 = 7; arg_3 = 0 }
      ∷ record { opcode = read_op; arg_0 = 2; arg_1 = 7; arg_2 = 0; arg_3 = 0 }
      ∷ [];
  pc = 0;
}

abbrev calculation : Inst
calculation = record { opcode = calc_op; arg_0 = 0; arg_1 = 0; arg_2 = 0; arg_3 = 0 }

-- A CALC is done; a WRITE and a READ are left.
run_times-end_example :
    let code = calculation ∷ write_then_read.code in
    (run_times 2 env [] one_ready (record { caller = named; code = code; pc = 1 })
      ≡ finished code (execute_all env [] write_then_read.code one_ready named))
    × ((s' : Sched) (c' : Caller)
        → let proc : Process = record { caller = c'; code = code; pc = 3 } in
          run env [] s' proc ≡ some (1, s', proc, []))
run_times-end_example = run_times-end env [] (calculation ∷ []) write_then_read.code one_ready named
