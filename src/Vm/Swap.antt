-- ===== src/Vm/Swap.antt =====
-- `__mm_swap_page`: the copy of a frame of RAM to the active swap.
use hcmut_os_ossim_sierra.Prelude.{ℕ, ◌≡◌, some, update, update_self}
use hcmut_os_ossim_sierra.Mm.{Caller}
use hcmut_os_ossim_sierra.Mm.Copy.{HasFrame, copied_frame, swap_cp_page-copied_frame}
use hcmut_os_ossim_sierra.Vm.{mm_swap_page}

-- The process after RAM's frame `from` has been copied to frame `to` of the active swap.
abbrev pub swapped_to : Caller → ℕ → ℕ → Caller
swapped_to c from to = record c {
  mswp = update c.mswp c.active_mswp (copied_frame c.mram from (c.mswp c.active_mswp) to);
}

pub mm_swap_page-swapped_to :
    (c : Caller) (from to : ℕ)
    → HasFrame c.mram from
    → HasFrame (c.mswp c.active_mswp) to
    → mm_swap_page c from to ≡ some (0, swapped_to c from to)
unfolding mm_swap_page
mm_swap_page-swapped_to c from to h k =
    rw (swap_cp_page-copied_frame c.mram (c.mswp c.active_mswp) from to h k)

-- Copying into a swap leaves its frames where they were.
pub frame_stays :
    (c : Caller) (from to other : ℕ)
    → HasFrame (c.mswp c.active_mswp) other
    → HasFrame ((swapped_to c from to).mswp c.active_mswp) other
frame_stays c from to other h =
    rw (update_self c.mswp c.active_mswp (copied_frame c.mram from (c.mswp c.active_mswp) to))
      (record { random = h.random; small = h.small; inside = h.inside })
