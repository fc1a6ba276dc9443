-- ===== src/Tests/Roots.antt =====
-- pkg/utils/chroot.go with a mount of /proc that fails.
use elemental_cli.Base.{◌≡◌, refl, false, none, some, [], ◌∷◌, ◌==◌, string_eq, if◌then◌else◌}
use elemental_cli.Errors.{Err, single, plain}
use elemental_cli.Machine.{Call, Outside, Reply, World, Proc, return_err}
use elemental_cli.Chroot.{new_chroot, run_callback}
use elemental_cli.Chroot.Mounts.{live, run_callback-live}
use elemental_cli.Tests.Layouts.{heap}

abbrev pub reply : Err → Reply
reply e = record { out = "/work"; flag = false; err = e; partitions = [] }

abbrev pub outside : Outside
outside cs (Call.mount s t f o) =
    reply (if s == "/proc" then some (single (plain "mount failed")) else none)
outside cs c = reply none

abbrev pub start : World
start = record { calls = Call.mount "/dev/sda" "/mnt" "auto" [] ∷ []; heap = heap }

abbrev callback : Proc
callback = return_err none

run_callback_run :
    (run_callback outside (new_chroot "/mnt/") callback start).0
    ≡ some (single (plain "mount failed"))
unfolding run_callback new_chroot string_eq
run_callback_run = refl

run_callback-live_example :
    let (_, c, w) = run_callback outside (new_chroot "/mnt/") callback start in
    (live outside w.calls ≡ live outside start.calls) × (c.active_mounts ≡ [])
unfolding new_chroot
run_callback-live_example =
    run_callback-live outside (λ cs m. refl) (new_chroot "/mnt/") callback start refl (λ w. refl)
