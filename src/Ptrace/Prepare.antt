-- ===== src/Ptrace/Prepare.antt =====
-- src/ptrace.c, the beginning of emuroot_run_ptrace: the configuration with canonical paths, and where
-- its bindings are attached. realpath is an argument.
use emuroot.Base.{
  ℕ, Option, none, some, List, [], ◌++◌, ◌==◌, if◌then◌else◌, length, take, drop, map,
}
use emuroot.Cstring.{bytes, snprintf, str_eq}
use emuroot.Context.{Ctx, Binding, path_len}
use emuroot.Path.{or_empty}

-- `realpath(path, canon)`, where it answers, in a buffer of PATH_LEN bytes
unfoldable pub canonical : (List ℕ → Option (List ℕ)) → List ℕ → List ℕ
canonical realpath path = elim (realpath path) [
  | none ↦ path
  | some canon ↦ snprintf path_len canon
]

unfoldable pub canonical_root : (List ℕ → Option (List ℕ)) → List ℕ → List ℕ
canonical_root realpath root =
    let r = if length root == 0 then root else canonical realpath root in
    if str_eq r (bytes "/") then [] else r

-- The host path and the mount point of a binding, under the canonical root.
unfoldable pub attach : (List ℕ → Option (List ℕ)) → List ℕ → Binding → Binding
attach realpath root b =
    let m = snprintf path_len (root ++ or_empty b.guest) in
    record b { host = canonical realpath b.host; mount = m; mount_len = length m }

unfoldable pub prepare : (List ℕ → Option (List ℕ)) → Ctx → Ctx
prepare realpath c =
    let root = canonical_root realpath c.root in
    record c {
      root = root;
      bindings =
          map (attach realpath root) (take c.nbindings c.bindings) ++ drop c.nbindings c.bindings;
    }
