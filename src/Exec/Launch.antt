-- ===== src/Exec/Launch.antt =====
-- src/exec.c: an execve is expanded through script interpreters and the root's own loader.
use emuroot.Base.{
  ℕ, zero, suc, ◌+◌, Bool, true, false, not, ◌&&◌, ◌||◌, Option, none, some, List, [], ◌∷◌, ◌++◌,
  ltb, ◌==◌, if◌then◌else◌, length, take,
}
use emuroot.Cstring.{bytes, slash, char_at, str_eq, snprintf}
use emuroot.Context.{path_len}
use emuroot.Path.{host_to_guest}
use emuroot.Rewrite.{at_cwd}
use emuroot.Kernel.{Kernel, Stop, le}
use emuroot.Rewrite.Paths.{text_at, translate}
use emuroot.Exec.{Earg, made, guest, replace_head, parse_shebang, contains}
use emuroot.Exec.Elf.{elf_interp}

abbrev pub max_exec_args : ℕ
max_exec_args = 8192

abbrev pub max_shebang_depth : ℕ
max_shebang_depth = 5

-- The loop over the cache of loader_has_argv0.
unfoldable pub cached : List (List ℕ × Bool) → List ℕ → Option Bool
cached [] path = none
cached ((p, ok) ∷ cache) path =
    let rest = cached cache path in if str_eq p path then some ok else rest

-- The variables of emuroot_rewrite_exec that its loop changes, beside the stop.
pub record Launch : Type 0 where
  pub args : List Earg
  pub exec_path : List ℕ
  pub host : List ℕ
  pub rewritten : Bool

module _ {W : Type 0} (k : Kernel W) where
  -- Whether the loader takes --argv0, and the stop with the cache that remembers it.
  unfoldable pub loader_has_argv0 : Stop W → List ℕ → Stop W × Bool
  loader_has_argv0 s host_path =
      let ok : Bool = elim (k.contents s.world host_path) [
        | none ↦ false
        | some file ↦ contains (take 0x400000 file) (bytes "--argv0")
      ] in
      let more = s.loaders ++ ((snprintf path_len host_path, ok) ∷ []) in
      elim (cached s.loaders host_path) [
        | some ok ↦ (s, ok)
        | none ↦ (if ltb (length s.loaders) 8 then record s { loaders = more } else s, ok)
      ]

  -- The text of the link to the working directory, empty where it cannot be read.
  unfoldable pub cwd_of : Stop W → List ℕ
  cwd_of s = elim (k.proc_link s.world s.t.pid at_cwd) [
    | none ↦ []
    | some cwd ↦ snprintf path_len cwd
  ]

  unfoldable pub host_path_of : Stop W → List ℕ → ℕ → List ℕ
  host_path_of s path size =
      if char_at path 0 == slash
      then (translate k s true path).out
      else if ltb size (length (cwd_of s) + length path + 2)
      then []
      else cwd_of s ++ (slash ∷ path)

  unfoldable pub guest_absolute : Stop W → List ℕ → ℕ → List ℕ
  guest_absolute s path size =
      let from_cwd : List ℕ = elim (host_to_guest s.ctx s.t.root (cwd_of s) path_len) [
        | none ↦ bytes "/"
        | some cwd ↦ cwd
      ] in
      let cwd = if length (cwd_of s) == 0 then bytes "/" else from_cwd in
      let sep = if ltb 1 (length cwd) then bytes "/" else [] in
      if char_at path 0 == slash then snprintf size path else snprintf size (cwd ++ (sep ++ path))

  -- The loop that reads the pointers of argv, with `left` places to go.
  unfoldable pub read_argv : Stop W → ℕ → ℕ → List Earg
  read_argv s addr zero = []
  read_argv s addr (suc left) =
      let word = k.read s.world s.t.pid addr 8 in
      let rest = read_argv s (addr + 8) left in
      if not (length word == 8) || le word == 0 then [] else guest (le word) ∷ rest

  -- The text of the first argument, in a buffer of PATH_LEN bytes.
  unfoldable pub first_text : Stop W → List Earg → List ℕ
  first_text s [] = []
  first_text s (made text ∷ args) = snprintf path_len text
  first_text s (guest ptr ∷ args) = elim (text_at k s ptr path_len) [ none ↦ [] | some text ↦ text ]

  -- A round of the loop at a script: argv becomes the interpreter, its argument, the script, and the
  -- rest of argv.
  unfoldable pub through_script : Launch → List ℕ → Option (List ℕ) → Launch
  through_script l interp arg =
      let lead : List (List ℕ) = elim arg [
        | none ↦ interp ∷ l.exec_path ∷ []
        | some a ↦ interp ∷ a ∷ l.exec_path ∷ []
      ] in
      record l {
        args = replace_head l.args 1 lead;
        exec_path = snprintf path_len interp;
        rewritten = true;
      }

  -- Whether the kernel finds the same file at the interpreter's path as the guest has there.
  unfoldable pub same_file : Stop W → List ℕ → List ℕ → Bool
  same_file s interp loader_host = elim (k.stat s.world interp) [
    | none ↦ false
    | some as_is ↦ elim (k.stat s.world loader_host) [
      | none ↦ false
      | some in_root ↦ as_is.dev == in_root.dev && as_is.ino == in_root.ino
    ]
  ]

  -- The last round, at a program that needs a loader.
  unfoldable pub through_loader : Stop W → Launch → List ℕ → Stop W × Launch
  through_loader s l interp =
      let loader_host = (translate k s true interp).out in
      let (s', takes_argv0) = loader_has_argv0 s loader_host in
      let a0 = first_text s l.args in
      let lead =
        interp
        ∷ (if takes_argv0 then bytes "--argv0" ∷ a0 ∷ l.exec_path ∷ [] else l.exec_path ∷ []) in
      if same_file s interp loader_host then (s, l) else (
        record s' { t = record s'.t { pending_exe = guest_absolute s' l.exec_path path_len } },
        record {
          args = replace_head l.args 1 lead;
          exec_path = snprintf path_len interp;
          host = snprintf path_len loader_host;
          rewritten = true;
        },
      )

  -- The loop over scripts, with `depth` rounds to go.
  unfoldable pub expand : Stop W → ℕ → Launch → Stop W × Launch
  expand s zero l = (s, l)
  expand s (suc depth) l =
      let host = host_path_of s l.exec_path path_len in
      let l' = record l { host = host } in
      elim (k.contents s.world host) [
        | none ↦ (s, l')
        | some file ↦ elim (parse_shebang (take 256 file)) [
          | some (interp, arg) ↦ expand s depth (through_script l' interp arg)
          | none ↦ elim (elf_interp file path_len) [
            | none ↦ (s, l')
            | some interp ↦ through_loader s l' interp
          ]
        ]
      ]
