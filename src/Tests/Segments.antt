-- ===== src/Tests/Segments.antt =====
-- The descriptor table of a machine.
use whisez_os.Prelude.{◌≡◌, some, arith}
use whisez_os.Prelude.Results.{ok}
use whisez_os.Arch.Gdt.{GdtBuilder, GdtLayout, build}
use whisez_os.Arch.Gdt.Layout.{IsRunnable, build-IsRunnable}

build-IsRunnable_example :
    (b : GdtBuilder) × (l : GdtLayout) × (build 0xffff_8000_1234_5678 ≡ some (ok (b, l)))
    × IsRunnable 0xffff_8000_1234_5678 b l
build-IsRunnable_example = build-IsRunnable 0xffff_8000_1234_5678 (omega arith)
