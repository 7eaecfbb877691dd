-- ===== src/Exec/Frame.antt =====
-- src/exec.c: rewriting an execve leaves the marks of the tracee.
use emuroot.Base.{
  ℕ, zero, suc, refl, ◌∙◌, true, false, List, [], Option-cases, Bool-cases, inl, inr, arith,
}
use emuroot.Kernel.{Kernel, Stop}
use emuroot.Context.{path_len}
use emuroot.Rewrite.Paths.{arg_of, text_at, translate, fail_closed}
use emuroot.Rewrite.Frame.{Keeps}
use emuroot.Exec.Launch.{
  max_exec_args, max_shebang_depth, read_argv, same_file, Launch, loader_has_argv0, through_loader,
  expand,
}
use emuroot.Exec.Block.{emit, emuroot_rewrite_exec}

module _ {W : Type 0} (k : Kernel W) where
  loader-Keeps : (s : Stop W) (path : List ℕ) → Keeps s (loader_has_argv0 k s path).0
  unfolding loader_has_argv0
  loader-Keeps s path = ground arith

  through_loader-Keeps :
      (s : Stop W) (l : Launch) (interp : List ℕ) → Keeps s (through_loader k s l interp).0
  unfolding through_loader
  through_loader-Keeps s l interp =
      let loader_host = (translate k s true interp).out in
      elim (Bool-cases (same_file k s interp loader_host)) [
        | inl e ↦ rw e refl
        | inr e ↦ rw e (loader-Keeps s loader_host)
      ]

  expand-Keeps : (s : Stop W) (depth : ℕ) (l : Launch) → Keeps s (expand k s depth l).0
  unfolding expand
  expand-Keeps s zero l = refl
  expand-Keeps s (suc depth) l = grind (arith, through_loader-Keeps s, expand-Keeps s depth)

  emit-Keeps :
      (s : Stop W) (path_slot argv_slot : ℕ) (l : Launch)
      → Keeps s (emit k s path_slot argv_slot l).0
  unfolding emit fail_closed
  emit-Keeps s path_slot argv_slot l = ground arith

  pub rewrite_exec-Keeps :
      (s : Stop W) (path_slot argv_slot : ℕ)
      → Keeps s (emuroot_rewrite_exec k s path_slot argv_slot).0
  unfolding emuroot_rewrite_exec
  rewrite_exec-Keeps s path_slot argv_slot =
      let args = read_argv k s (arg_of k s argv_slot) max_exec_args in
      elim (Option-cases (text_at k s (arg_of k s path_slot) path_len)) [
        | inl n ↦ rw (n, emuroot_rewrite_exec) (ground arith)
        | inr (exec_path, n) ↦
            let l : Launch = record {
              args = args;
              exec_path = exec_path;
              host = [];
              rewritten = false;
            } in
            let (s', l') = expand k s max_shebang_depth l in
            let expanded = expand-Keeps s max_shebang_depth l in
            let emitted = emit-Keeps s' path_slot argv_slot l' ∙ expanded in
            rw (n, emuroot_rewrite_exec) (ground (arith, expanded, emitted))
      ]
