-- ===== src/VmSpace.antt =====
-- The areas of an address space: `VmaFlags`, `VmaEntry` and `VmSpace` of src/mm/vmm.rs, their copy in
-- `clone_vmspace` of src/proc/fork.rs, and the calls `mmap`, `munmap` and `brk` of src/syscall.rs as
-- far as they change the areas.
-- `sort_unstable_by_key` is taken as the insertion of the new area behind those with the same start.
pub mod Gap
pub mod Areas
pub mod Faults
mod Tests
use sar_osx.Base.{
  add64, ℕ, zero, suc, ◌+◌, ◌-◌, ◌*◌, ◌/◌, ◌%◌, ◌^◌, ◌≤◌, ◌<◌, min, max, bit_and, bit_or, bit_xor,
  ◌≡◌, refl, sym, ap, ◌∙◌, ◌≢◌, ◌↔◌, ◌⊎◌, inl, inr, Bool, true, false, not, ◌&&◌, ◌||◌, Option,
  none, some, List, [], ◌∷◌, ◌++◌, map, append-nil, append_assoc, arith, ltb, leb, ◌==◌,
  if◌then◌else◌, ltb→lt, lt→ltb, leb→le, ==_iff, tests, Bool-cases, Option-cases, length, get_elem?,
  set, get_or, take, drop, replicate, length-append, length-set, length-take, length-drop,
  length-replicate, length-map,
}

-- `VmaFlags` are the bits of a `u32`.
abbrev pub vma_read : ℕ
vma_read = 0x01

abbrev pub vma_write : ℕ
vma_write = 0x02

abbrev pub vma_exec : ℕ
vma_exec = 0x04

abbrev pub vma_copy_on_write : ℕ
vma_copy_on_write = 0x10

abbrev pub vma_anonymous : ℕ
vma_anonymous = 0x20

abbrev pub vma_grows_down : ℕ
vma_grows_down = 0x40

abbrev pub has_flag : ℕ → ℕ → Bool
has_flag flags flag = bit_and flags flag == flag

pub record VmaEntry : Type 0 where
  pub start : ℕ
  pub end : ℕ
  pub flags : ℕ

abbrev pub vma : ℕ → ℕ → ℕ → VmaEntry
vma s e f = record { start = s; end = e; flags = f }

abbrev pub contains : VmaEntry → ℕ → Bool
contains a addr = leb a.start addr && ltb addr a.end

pub record VmSpace : Type 0 where
  pub areas : List VmaEntry
  pub brk : ℕ

abbrev pub new : VmSpace
new = record { areas = []; brk = 0x1000_0000 }

pub find_area : List VmaEntry → ℕ → Option VmaEntry
find_area [] addr = none
find_area (a ∷ rest) addr = if contains a addr then some a else find_area rest addr

pub find_vma : VmSpace → ℕ → Option VmaEntry
unfolding find_area
find_vma vm addr = find_area vm.areas addr

pub insert_area : VmaEntry → List VmaEntry → List VmaEntry
insert_area a [] = a ∷ []
insert_area a (b ∷ rest) = if leb b.start a.start then b ∷ insert_area a rest else a ∷ b ∷ rest

pub add_vma : VmSpace → (start end flags : ℕ) → VmSpace
unfolding insert_area
add_vma vm start end flags = record vm { areas = insert_area (vma start end flags) vm.areas }

pub retain_areas : (start end : ℕ) → List VmaEntry → List VmaEntry
retain_areas start end [] = []
retain_areas start end (a ∷ rest) =
    let kept = retain_areas start end rest in
    if not (leb start a.start && leb a.end end) then a ∷ kept else kept

pub remove_vma : VmSpace → (start end : ℕ) → VmSpace
unfolding retain_areas
remove_vma vm start end = record vm { areas = retain_areas start end vm.areas }

-- A private writable area is written by copy in the child.
abbrev pub clone_vma : VmaEntry → VmaEntry
clone_vma a = record a {
  flags =
      if has_flag a.flags vma_write && has_flag a.flags vma_anonymous
      then bit_or a.flags vma_copy_on_write
      else a.flags;
}

pub clone_vmspace : VmSpace → VmSpace
clone_vmspace parent = record { areas = map clone_vma parent.areas; brk = parent.brk }

-- What a call hands back to the process.
pub data Answer : Type 0 where
  ret : ℕ → Answer
  errno : ℕ → Answer

abbrev pub einval : ℕ
einval = 22

-- `(len + PAGE_SIZE - 1) & !(PAGE_SIZE - 1)`
abbrev pub round_len : ℕ → ℕ
round_len len = bit_and (add64 len 4095) (2 ^ 64 - 4096)

pub prot_flags : ℕ → ℕ
prot_flags prot =
    let vf = vma_anonymous in
    let vf = if bit_and prot 1 == 0 then vf else bit_or vf vma_read in
    let vf = if bit_and prot 2 == 0 then vf else bit_or vf vma_write in
    if bit_and prot 4 == 0 then vf else bit_or vf vma_exec

-- Whether the caller fixes the address.
abbrev pub is_fixed : (addr flags : ℕ) → Bool
is_fixed addr flags = not (addr == 0) && not (bit_and flags 0x10 == 0)

-- `sys_mmap` on the areas of the process that calls it.
pub mmap : VmSpace → (addr len prot flags : ℕ) → Answer × VmSpace
unfolding prot_flags
mmap vm addr len prot flags =
    if len == 0
    then (errno einval, vm)
    else let virt = if is_fixed addr flags then addr else vm.brk in
      let stop = add64 virt (round_len len) in
      let vm' = add_vma vm virt stop (prot_flags prot) in
      (ret virt, if is_fixed addr flags then vm' else record vm' { brk = stop })

-- The areas after `sys_munmap`; the pages of the range are unmapped besides.
pub munmap : VmSpace → (addr len : ℕ) → Answer × VmSpace
munmap vm addr len =
    if addr % 4096 == 0 then (ret 0, remove_vma vm addr (add64 addr len)) else (errno einval, vm)

pub set_brk : VmSpace → (nb : ℕ) → Answer × VmSpace
set_brk vm nb = if nb == 0 || ltb nb vm.brk then (ret vm.brk, vm) else (
  ret nb,
  record (add_vma vm vm.brk nb (bit_or (bit_or vma_read vma_write) vma_anonymous)) { brk = nb },
)

-- What `handle_page_fault` decides for the current process: to refuse the fault, to copy the page
-- (`handle_cow`) or to give the area a fresh page (`handle_demand_page`).
pub data FaultAction : Type 0 where
  refuse : FaultAction
  copy : FaultAction
  demand : VmaEntry → FaultAction

fault_in : VmaEntry → (present write : Bool) → FaultAction
fault_in a present write =
    if write && not (has_flag a.flags vma_write)
    then (if has_flag a.flags vma_copy_on_write then copy else refuse)
    else (if not present then demand a else refuse)

fault_at : Option VmaEntry → (present write : Bool) → FaultAction
fault_at none present write = refuse
fault_at (some a) present write = fault_in a present write

pub handle_page_fault : VmSpace → (addr error : ℕ) → FaultAction
unfolding fault_in fault_at
handle_page_fault vm addr error =
    fault_at (find_vma vm addr) (not (bit_and error 1 == 0)) (not (bit_and error 2 == 0))
