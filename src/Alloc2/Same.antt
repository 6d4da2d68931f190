-- ===== src/Alloc2/Same.antt =====
-- `alloc` of alloc2.c allocates as that of alloc.c does.
use cmpt201_coursework.Prelude.{ℕ, Bool, not, ◌==◌, if◌then◌else◌, Run, ok, ◌>>=◌}
use cmpt201_coursework.Memory.{null}
use cmpt201_coursework.Alloc
use cmpt201_coursework.Alloc.{Allocator, at_limit}
use cmpt201_coursework.Alloc.Sbrk.{Kernel}
use cmpt201_coursework.Alloc2.{alloc_list, alloc_init, alloc_bump}

-- `alloc` by the phase it is in.
module _ (kernel : Kernel) (k n : ℕ) (s : Allocator) (w : kernel.World) where
  abbrev here : Bool → Run (ℕ × Allocator × kernel.World)
  here z =
      if not z
      then ok (if s.free.head == null then alloc_init kernel n s w else alloc_bump kernel n s w)
      else alloc_list k n s >>= (λ t. ok (t.0, t.1, w))

  abbrev there : Bool → Run (ℕ × Allocator × kernel.World)
  there z =
      if not z
      then ok (
          if s.free.head == null
          then Alloc.alloc_init kernel n s w
          else Alloc.alloc_bump kernel n s w)
      else Alloc.alloc_list k n s >>= (λ t. ok (t.0, t.1, w))
