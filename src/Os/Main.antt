-- ===== src/Os/Main.antt =====
-- src/os.c: `main`, up to the start of the threads.
use hcmut_os_ossim_sierra.Prelude.{
  ℕ, ◌≡◌, ◌<◌, refl, false, map, All, arith, Option, none, some, List, [], ◌∷◌, ◌++◌, leb,
  if◌then◌else◌, length, get_elem?,
}
use hcmut_os_ossim_sierra.Loader.{Load, ok, undefined, ◌>>=◌}
use hcmut_os_ossim_sierra.Timer.{Attachable}
use hcmut_os_ossim_sierra.Os.{Machine}
use hcmut_os_ossim_sierra.Os.Config.{Config, Entry, read_config, main_timer}
use hcmut_os_ossim_sierra.Os.Config.Attach.{empty_timer}
use hcmut_os_ossim_sierra.Os.Config.RoundTrip.{
  ProcLine, LineFits, process_at, print_config, read_config-print_config,
}
use hcmut_os_ossim_sierra.Loader.{signed}
use hcmut_os_ossim_sierra.Loader.Numbers.Lines.{InRange}
use hcmut_os_ossim_sierra.Os.Threads.{Simulator, boot}

-- `main` returns 1 with a line on its use, or goes on to start the threads.
pub data Start : Type 0 where
  usage : Start
  threads : Config → Attachable → Simulator → Start

abbrev pub input_dir : List ℕ
input_dir = 105 ∷ 110 ∷ 112 ∷ 117 ∷ 116 ∷ 47 ∷ []

abbrev size_at : List ℕ → ℕ → ℕ
size_at sizes sit = elim (get_elem? sizes sit) [ none ↦ 0 | some n ↦ n ]

-- What `main` makes of the configuration before it creates the threads.
pub prepare : List ℕ → Machine → Config → Start
prepare stale raw config =
    threads config (main_timer config.num_cpus empty_timer)
      (boot stale raw config.memramsz (size_at config.memswpsz))

-- `args` is `argv` after the name of the program, and `open` gives the bytes of a file. The arguments
-- before are those of `read_config` and `boot`. `strcat` into `char path[100]`.
pub main_start :
    List ℕ
    → (ℕ → Entry)
    → List ℕ
    → List ℕ
    → Machine
    → (List ℕ → Option (List ℕ))
    → List (List ℕ)
    → Load Start
unfolding prepare
main_start unset_sizes unset name stale raw open_file [] = ok usage
main_start unset_sizes unset name stale raw open_file (arg ∷ []) =
    if leb 100 (length (input_dir ++ arg)) then undefined else do
      config ← read_config unset_sizes unset name (open_file (input_dir ++ arg))
      ok (prepare stale raw config)
main_start unset_sizes unset name stale raw open_file (arg ∷ more ∷ args) = ok usage

-- Given the name of a file that holds a configuration, as `print_config` writes it, `main` starts the
-- threads with that configuration.
pub main_start-print_config :
    (unset_sizes : List ℕ) (unset : ℕ → Entry) (name stale : List ℕ) (raw : Machine)
    (open_file : List ℕ → Option (List ℕ)) (arg : List ℕ) (time_slot num_cpus ram : ℕ)
    (swap : List ℕ) (ps : List ProcLine)
    → length unset_sizes ≡ 5
    → length swap ≡ 4
    → InRange signed (time_slot ∷ num_cpus ∷ length ps ∷ ram ∷ swap)
    → All LineFits ps
    → length (input_dir ++ arg) < 100
    → open_file (input_dir ++ arg) ≡ some (print_config time_slot num_cpus ram swap ps)
    → main_start unset_sizes unset name stale raw open_file (arg ∷ [])
      ≡ ok (
          prepare stale raw (record {
            time_slot = time_slot;
            num_cpus = num_cpus;
            num_processes = length ps;
            memramsz = ram;
            memswpsz = swap;
            processes = map process_at ps;
          }))
unfolding main_start
main_start-print_config unset_sizes unset name stale raw open_file arg time_slot num_cpus ram swap
      ps l k r f fits e =
    let short : leb 100 (length (input_dir ++ arg)) ≡ false = ground arith in
    rw short (
      rw e (
        rw (read_config-print_config unset_sizes unset name time_slot num_cpus ram swap ps l k r f)
          refl))
