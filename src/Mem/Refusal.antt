-- ===== src/Mem/Refusal.antt =====
-- How the segmented memory splits an address, and that it answers every request without doing it.
use hcmut_os_ossim_sierra.Prelude.{ℕ, ◌+◌, ◌*◌, ◌%◌, ◌<◌, ◌≡◌, refl, true, some, update, arith, ltb}
use hcmut_os_ossim_sierra.Word.Bits.{bit_and-ones}
use hcmut_os_ossim_sierra.Mem.{
  Ram, SegProcess, get_offset, get_first_lv, get_second_lv, alloc, read_data, write_data,
}

get_offset_lem : (addr : ℕ) → get_offset addr ≡ addr % 1024
unfolding get_offset
get_offset_lem addr = bit_and-ones 10 addr

-- The shifts and masks of mem.c split an address of 20 bits into its segment, its page and its
-- offset, each in the range of its table, and nothing of the address is lost.
pub segment_split :
    (addr : ℕ)
    → addr < 1048576
    → (get_first_lv addr * 32768 + get_second_lv addr * 1024 + get_offset addr ≡ addr)
      × (get_first_lv addr < 32)
      × (get_second_lv addr < 32)
      × (get_offset addr < 1024)
unfolding get_second_lv
segment_split addr h = omega (arith, get_offset_lem addr)

-- The segmented memory has no page for anyone: an allocation is refused, a write is refused and
-- changes nothing, but a read is answered as a success, with a byte that was never read.
pub segmented_refuses :
    (r : Ram) (proc : SegProcess) (physical junk size source destination value offset : ℕ)
    → source < 10
    → destination < 10
    → (alloc proc size destination ≡ some (1, proc))
      × (write_data r physical proc value destination offset ≡ some (1, r))
      × (read_data r physical junk proc source offset destination
          ≡ some (0, record proc { regs = update proc.regs destination junk }))
unfolding alloc write_data read_data
segmented_refuses r proc physical junk size source destination value offset h k =
    let from : ltb source 10 ≡ true = ground arith in
    let to : ltb destination 10 ≡ true = ground arith in (refl, rw to, rw (from, to))
