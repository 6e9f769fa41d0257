-- ===== src/Killall/Name.antt =====
-- The name that `killall` reads from a region.
use hcmut_os_ossim_sierra.Prelude.{
  ℕ, zero, suc, ◌+◌, ◌≤◌, ◌<◌, ◌≡◌, refl, ap, subst, ◌∙◌, Bool, true, false, Option, none, some,
  List, [], ◌∷◌, arith, length, ◌==◌, ◌>>=◌,
}
use hcmut_os_ossim_sierra.Word.{byte_of, int_of_byte, minus_one}
use hcmut_os_ossim_sierra.Mm.{Caller}
use hcmut_os_ossim_sierra.Vm.Overlap.{HasArea}
use hcmut_os_ossim_sierra.Libmem.{max_symtbl_sz}
use hcmut_os_ossim_sierra.Libmem.Paging.{libread, region_addr}
use hcmut_os_ossim_sierra.Libmem.Paging.Access.{InRam, cell_of, libread_lem}
use hcmut_os_ossim_sierra.Killall.{read_name}

-- The byte at an offset of a region, on a page in RAM.
pub record HasByte (c : Caller) (memrg offset b : ℕ) : Type 0 where
  pub in_ram : InRam c (region_addr c.mm memrg offset)
  pub byte : c.mram.storage (cell_of c (region_addr c.mm memrg offset)) ≡ b

-- The bytes from an offset on, none of them 255.
abbrev pub HasBytes : Caller → ℕ → ℕ → List ℕ → Type 0
HasBytes c memrg i [] = Unit
HasBytes c memrg i (b ∷ bs) = HasByte c memrg i b × (b < 255) × HasBytes c memrg (suc i) bs

libread_byte :
    (stale : List ℕ) (junk : ℕ) (c : Caller) (e memrg i b : ℕ)
    → HasArea c e
    → memrg < max_symtbl_sz
    → HasByte c memrg i b
    → b < 256
    → libread stale junk c memrg i ≡ some (int_of_byte b, int_of_byte b, c)
libread_byte stale junk c e memrg i b h lt has small =
    libread_lem stale junk c e memrg i h lt has.in_ram (omega (arith, has.byte))
    ∙ ap (λ (v : ℕ). some (int_of_byte v, int_of_byte v, c)) has.byte

-- A round of `read_name`, from what `libread` has answered.
abbrev read_branch : ℕ → List ℕ → ℕ → ℕ → ℕ → Caller → Bool → ℕ → Option (List ℕ × Caller)
read_branch n stale junk memrg i c ends b = elim ends [
  | true ↦ some ([], c)
  | false ↦ read_name n stale junk c memrg (i + 1) >>= λ r. some (b ∷ r.0, r.1)
]

abbrev read_next : ℕ → List ℕ → ℕ → ℕ → ℕ → ℕ × ℕ × Caller → Option (List ℕ × Caller)
read_next n stale junk memrg i (val, value, c) =
    read_branch n stale junk memrg i c (value == minus_one) (byte_of value)

read_next-more :
    (n : ℕ) (stale : List ℕ) (junk memrg i v b : ℕ) (c : Caller)
    → (v == minus_one) ≡ false
    → byte_of v ≡ b
    → read_next n stale junk memrg i (v, v, c)
      ≡ (read_name n stale junk c memrg (i + 1) >>= λ r. some (b ∷ r.0, r.1))
read_next-more n stale junk memrg i v b c h e =
    ap (λ (ends : Bool). read_branch n stale junk memrg i c ends (byte_of v)) h
    ∙ ap (read_branch n stale junk memrg i c false) e

read_name-cons :
    (n : ℕ) (stale : List ℕ) (junk : ℕ) (c : Caller) (e memrg i b : ℕ)
    → HasArea c e
    → memrg < max_symtbl_sz
    → HasByte c memrg i b
    → b < 255
    → read_name (suc n) stale junk c memrg i
      ≡ (read_name n stale junk c memrg (i + 1) >>= λ r. some (b ∷ r.0, r.1))
unfolding read_name
read_name-cons n stale junk c e memrg i b h lt has small =
    ap (λ (o : Option (ℕ × ℕ × Caller)). o >>= read_next n stale junk memrg i)
      (libread_byte stale junk c e memrg i b h lt has (omega (arith, small)))
    ∙ read_next-more n stale junk memrg i (int_of_byte b) b c (ground arith) (ground arith)

read_name-nil :
    (n : ℕ) (stale : List ℕ) (junk : ℕ) (c : Caller) (e memrg i : ℕ)
    → HasArea c e
    → memrg < max_symtbl_sz
    → HasByte c memrg i 255
    → read_name (suc n) stale junk c memrg i ≡ some ([], c)
unfolding read_name
read_name-nil n stale junk c e memrg i h lt has =
    ap (λ (o : Option (ℕ × ℕ × Caller)). o >>= read_next n stale junk memrg i)
      (libread_byte stale junk c e memrg i 255 h lt has (omega arith))

-- The name that `killall` reads is the bytes of the region up to the first 255, when the pages are in
-- RAM and the bytes are fewer than the room `n` that is left of `proc_name`; and with as many bytes
-- as that or more the loop writes past the end of `proc_name`.
pub read_name_lem :
    (bs : List ℕ) (n : ℕ) (stale : List ℕ) (junk : ℕ) (c : Caller) (e memrg i : ℕ)
    → HasArea c e
    → memrg < max_symtbl_sz
    → HasBytes c memrg i bs
    → (length bs < n
        → HasByte c memrg (i + length bs) 255
        → read_name n stale junk c memrg i ≡ some (bs, c))
      × (n ≤ length bs → read_name n stale junk c memrg i ≡ none)
read_name_lem bs zero stale junk c e memrg i h lt has =
    (λ l. absurd (omega (arith, l)), λ l. unfold read_name in refl)
read_name_lem [] (suc n) stale junk c e memrg i h lt has = (
  λ l end.
      read_name-nil n stale junk c e memrg i h lt
        (subst (λ (k : ℕ). HasByte c memrg k 255) (omega arith) end),
  λ l. absurd (omega (arith, l)),
)
read_name_lem (b ∷ bs) (suc n) stale junk c e memrg i h lt has =
    let one = read_name-cons n stale junk c e memrg i b h lt has.0 has.1 in
    let rest = read_name_lem bs n stale junk c e memrg (suc i) h lt has.2 in
    let next : i + 1 ≡ suc i = omega arith in
    let shifted =
      ap
        (λ (k : ℕ).
          read_name n stale junk c memrg k >>= λ (r : List ℕ × Caller). some (b ∷ r.0, r.1))
        next in
    (
      λ l end.
          one
          ∙ shifted
          ∙ ap (λ (o : Option (List ℕ × Caller)). o >>= λ r. some (b ∷ r.0, r.1))
              (rest.0 (omega (arith, l))
                (subst (λ (k : ℕ). HasByte c memrg k 255) (omega arith) end)),
      λ l.
          one
          ∙ shifted
          ∙ ap (λ (o : Option (List ℕ × Caller)). o >>= λ r. some (b ∷ r.0, r.1))
              (rest.1 (omega (arith, l))),
    )
