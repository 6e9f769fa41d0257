-- ===== src/Pte/Address.antt =====
-- Virtual and physical addresses: the page number, the offset, and PAGING_PHYADDR of include/mm.h.
use hcmut_os_ossim_sierra.Prelude.{ℕ, ◌+◌, ◌*◌, ◌/◌, ◌%◌, ◌^◌, ◌<◌, ◌≡◌, arith}
use hcmut_os_ossim_sierra.Word.{u32, add32}
use hcmut_os_ossim_sierra.Word.Bits.{bit_and-field}
use hcmut_os_ossim_sierra.Pte.{genmask, get_val}

abbrev pub page_size : ℕ
page_size = 256

-- DIV_ROUND_UP(BIT(22), 256)
abbrev pub max_pgn : ℕ
max_pgn = 16384

-- PAGING_PGN: bits 8 to 21
unfoldable pub pgn_of : ℕ → ℕ
pgn_of addr = get_val addr (genmask 21 8) 8

-- PAGING_OFFST: bits 0 to 7
unfoldable pub offst_of : ℕ → ℕ
offst_of addr = get_val addr (genmask 7 0) 0

-- PAGING_PHYADDR
unfoldable pub phy_addr : ℕ → ℕ → ℕ
phy_addr fpn offst = add32 (u32 (fpn * 2 ^ 8)) offst

pub pgn_of_lem : (addr : ℕ) → pgn_of addr ≡ addr / 256 % 16384
unfolding pgn_of
pgn_of_lem addr = omega (arith, bit_and-field 8 14 addr)

pub offst_of_lem : (addr : ℕ) → offst_of addr ≡ addr % 256
unfolding offst_of
offst_of_lem addr = omega (arith, bit_and-field 0 8 addr)

-- The page number is an index of the page table and the offset one of a page, for every address;
-- below the 4 MB of the bus they determine it.
pub address_split :
    (addr : ℕ)
    → (pgn_of addr < max_pgn)
      × (offst_of addr < page_size)
      × (addr < 4194304 → pgn_of addr * page_size + offst_of addr ≡ addr)
address_split addr = omega (arith, pgn_of_lem addr, offst_of_lem addr)

-- A physical address gives its frame and offset back, so different cells never meet.
pub phy_addr_split :
    (fpn offst : ℕ)
    → fpn < 8192
    → offst < page_size
    → (phy_addr fpn offst ≡ fpn * page_size + offst)
      × (phy_addr fpn offst / page_size ≡ fpn)
      × (phy_addr fpn offst % page_size ≡ offst)
unfolding phy_addr
phy_addr_split fpn offst h k = omega arith
