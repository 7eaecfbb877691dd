-- ===== src/Probe/Examples.antt =====
-- A kernel without regsets that permits the rest, and one that does not let the child be traced.
use emuroot.Base.{◌<◌, ◌≡◌, refl, true, false, none, some, [], if◌then◌else◌, arith}
use emuroot.Cstring.{bytes, snprintf}
use emuroot.Guest.{moved, emuroot_process_vm}
use emuroot.Start.{exited}
use emuroot.Probe.{
  Child, flags, probe_value, seccomp_flag, usable, out_size, texts, say_all, emuroot_diagnose,
}
use emuroot.Probe.Report.{concat, emuroot_diagnose_lem}

abbrev old_kernel : Child
old_kernel = record {
  get_regset = false;
  get_regs = true;
  has_call = true;
  process_vm = moved 8;
  vm_value = probe_value;
  opened = false;
  pread = moved 0;
  mem_value = 0;
  peek_value = probe_value;
  peek_errno = 0;
  set_base = true;
  set_exitkill = false;
}

old_is_usable : usable (flags 8 (some old_kernel)) ≡ true
unfolding usable flags emuroot_process_vm
old_is_usable = refl

untraced_is_not : usable (flags 8 none) ≡ false
unfolding usable flags
untraced_is_not = refl

emuroot_diagnose_lem_example :
    let f = flags 8 (some old_kernel) in
    let ts = texts (bytes "x86_64") (bytes "2.6.32") f (seccomp_flag (some (exited 1))) false in
    (emuroot_diagnose
        (bytes "x86_64")
        (bytes "2.6.32")
        8
        (some old_kernel)
        (some (exited 1))
        false
        4096
      ≡ (snprintf 4096 (concat ts), if usable f then 0 else 1))
    × ((say_all ([], 0) ts).1 < out_size)
emuroot_diagnose_lem_example =
    emuroot_diagnose_lem (bytes "x86_64") (bytes "2.6.32") 8 (some old_kernel) (some (exited 1))
      false 4096 (omega arith) (omega arith)
