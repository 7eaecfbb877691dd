-- ===== src/Start.antt =====
-- src/main.c, src/emuroot.c, src/envonly.c and src/spawn.c: from the command line to a running guest,
-- and back to its exit status. What getopt, fork and waitpid answer, and what sscanf reads, are
-- arguments; so is whether ptrace can be used.
pub mod Status
pub mod Env
pub mod Spawn
mod Examples
use emuroot.Base.{
  ℕ, zero, suc, ◌+◌, ◌%◌, Bool, true, false, not, ◌&&◌, ◌||◌, Option, none, some, List, [], ◌∷◌,
  ◌++◌, ◌==◌, if◌then◌else◌, length, take, drop, ℤ, pos, negsuc,
}
use emuroot.Cstring.{bytes, str_eq, strrchr}
use emuroot.Context.{
  Ctx, Binding, emuroot_create, emuroot_set_root, emuroot_bind, emuroot_set_fake_ids,
  emuroot_set_fake_uname, emuroot_set_ids_file, emuroot_set_verbose,
}

-- `emuroot_backend_t`
pub data Backend : Type 0 where
  no_backend ptrace_backend envonly_backend : Backend

unfoldable pub emuroot_backend_name : Backend → List ℕ
emuroot_backend_name ptrace_backend = bytes "ptrace"
emuroot_backend_name envonly_backend = bytes "envonly"
emuroot_backend_name no_backend = bytes "none"

unfoldable pub emuroot_strerror : ℤ → List ℕ
emuroot_strerror (pos zero) = bytes "success"
emuroot_strerror (pos (suc n)) = bytes "unknown error"
emuroot_strerror (negsuc n) =
    if n == 0
    then bytes "out of memory / binding table full"
    else if n == 1
    then bytes "invalid argument"
    else if n == 2
    then bytes "unsupported on this platform"
    else if n == 3
    then bytes "system call failed (see errno)"
    else if n == 4
    then bytes "not found"
    else bytes "unknown error"

-- How a process has ended, as waitpid tells.
pub data Ended : Type 0 where
  exited : ℕ → Ended
  killed : ℕ → Ended
  otherwise : Ended

-- EMUROOT_ERR_UNSUPPORTED and EMUROOT_ERR_SYSTEM
abbrev pub emuroot_err_unsupported : ℤ
emuroot_err_unsupported = negsuc 2

abbrev pub emuroot_err_system : ℤ
emuroot_err_system = negsuc 3

-- `forced` is $EMUROOT_BACKEND; `stops` is whether the child that asks to be traced stops, none where
-- fork fails.
unfoldable pub emuroot_probe_backend : Option (List ℕ) → Option Bool → Backend
emuroot_probe_backend forced stops =
    let probed : Backend = elim stops [
      | none ↦ envonly_backend
      | some ok ↦ if ok then ptrace_backend else envonly_backend
    ] in
    elim forced [
      | none ↦ probed
      | some text ↦ if str_eq text (bytes "envonly") then envonly_backend else probed
    ]

-- The end of emuroot_run_envonly; none where fork fails.
unfoldable pub envonly_status : Option Ended → ℤ
envonly_status none = emuroot_err_system
envonly_status (some (exited code)) = pos code
envonly_status (some (killed sig)) = pos (128 + sig)
envonly_status (some otherwise) = emuroot_err_system

-- `has_argv` is whether there is a context and a first argument; `traced` is what emuroot_run_ptrace
-- answers and `plain` what emuroot_run_envonly does.
unfoldable pub emuroot_run : Bool → Backend → ℤ → ℤ → ℤ
emuroot_run has_argv backend traced plain =
    let after_ptrace : ℤ = elim traced [
      | pos n ↦ pos n
      | negsuc n ↦ if n == 2 then plain else negsuc n
    ] in
    let run : ℤ = elim backend [
      | ptrace_backend ↦ after_ptrace
      | envonly_backend ↦ plain
      | no_backend ↦ plain
    ] in
    if has_argv then run else negsuc 1

-- The status that the supervisor of emuroot_spawn exits with.
unfoldable pub supervisor_code : ℤ → ℕ
supervisor_code (pos n) = n % 256
supervisor_code (negsuc n) = 127

-- emuroot_wait, over what waitpid answers: none is a failure with EINTR, and the end of the list one
-- with another errno.
unfoldable pub emuroot_wait : List (Option Ended) → ℤ
emuroot_wait [] = negsuc 0
emuroot_wait (none ∷ answers) = emuroot_wait answers
emuroot_wait (some (exited code) ∷ answers) = pos code
emuroot_wait (some (killed sig) ∷ answers) = pos (128 + sig)
emuroot_wait (some otherwise ∷ answers) = negsuc 0

-- The value of EMUROOT_BINDINGS, behind `text`.
unfoldable pub bindings_text : List ℕ → List Binding → List ℕ
bindings_text text [] = text
bindings_text text (b ∷ bs) =
    let sep = if length text == 0 then [] else bytes ";" in
    bindings_text (text ++ (sep ++ (b.host ++ (bytes ":" ++ b.guest)))) bs

-- What getopt answers, with what sscanf reads of the text of -u and -n.
pub data Opt : Type 0 where
  opt_r : List ℕ → Opt
  opt_b : List ℕ → Opt
  opt_u : Option (ℕ × ℕ) → Opt
  opt_n : (sysname : List ℕ) → (release : List ℕ) → (machine : List ℕ) → Opt
  opt_s : List ℕ → Opt
  opt_d : (diagnosis : ℕ) → Opt
  opt_v opt_version opt_h opt_unknown : Opt

-- The text before the first ':' and behind it.
unfoldable pub split_colon : List ℕ → Option (List ℕ × List ℕ)
split_colon [] = none
split_colon (x ∷ text) =
    let rest : Option (List ℕ × List ℕ) = elim (split_colon text) [
      | none ↦ none
      | some (before, behind) ↦ some (x ∷ before, behind)
    ] in
    if x == 58 then some ([], text) else rest

-- An option: the configuration, or the code that main returns.
pub data Step : Type 0 where
  configured : Ctx → Step
  finished : ℕ → Step

unfoldable pub option : Ctx → Opt → Step
option c (opt_r root) = configured (emuroot_set_root c (some root)).0
option c (opt_b text) = elim (split_colon text) [
  | none ↦ finished 2
  | some (host, guest) ↦ configured (emuroot_bind c (some host) (some guest)).0
]
option c (opt_u none) = finished 2
option c (opt_u (some (uid, gid))) = configured (emuroot_set_fake_ids c uid gid).0
option c (opt_n sysname release machine) =
    configured (emuroot_set_fake_uname c (some sysname) (some release) (some machine)).0
option c (opt_s file) = configured (emuroot_set_ids_file c (some file)).0
option c (opt_d diagnosis) = finished diagnosis
option c opt_v = configured (emuroot_set_verbose c true).0
option c opt_version = finished 0
option c opt_h = finished 0
option c opt_unknown = finished 2

-- The loop over the options.
unfoldable pub options : Ctx → List Opt → Step
options c [] = configured c
options c (o ∷ os) = elim (option c o) [
  | configured c' ↦ options c' os
  | finished code ↦ finished code
]

-- Where there is memory for a configuration. `run` is emuroot_run with the command that follows the
-- options, none where there is no command.
unfoldable pub main : List Opt → Option (Ctx → ℤ) → ℕ
main os run = elim (options emuroot_create os) [
  | finished code ↦ code
  | configured c ↦ elim run [ none ↦ 2 | some f ↦ elim (f c) [ pos n ↦ n | negsuc n ↦ 1 ] ]
]
