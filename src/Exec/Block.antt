-- ===== src/Exec/Block.antt =====
-- src/exec.c, the end of emuroot_rewrite_exec: the path, the made-up arguments and the new argv, laid
-- out as one block in the guest's memory. A pointer has 8 bytes.
use emuroot.Base.{
  ℕ, ◌+◌, ◌-◌, ◌*◌, ◌%◌, false, not, ◌||◌, none, some, List, [], ◌∷◌, ◌++◌, ◌==◌, if◌then◌else◌,
  length, replicate, ℤ, pos, negsuc,
}
use emuroot.Context.{path_len}
use emuroot.Kernel.{Kernel, Stop, le_bytes}
use emuroot.Rewrite.{emuroot_scratch}
use emuroot.Rewrite.Paths.{arg_of, put_arg, text_at, fail_closed}
use emuroot.Exec.{Earg, made, guest}
use emuroot.Exec.Launch.{Launch, read_argv, expand, max_exec_args, max_shebang_depth}

-- The made-up arguments one behind another, each with its NUL.
unfoldable pub strings_of : List Earg → List ℕ
strings_of [] = []
strings_of (made text ∷ args) = text ++ (0 ∷ strings_of args)
strings_of (guest ptr ∷ args) = strings_of args

-- The new argv, where the next string stands at `at`.
unfoldable pub pointers_of : List Earg → ℕ → List ℕ
pointers_of [] at = 0 ∷ []
pointers_of (made text ∷ args) at = at ∷ pointers_of args (at + length text + 1)
pointers_of (guest ptr ∷ args) at = ptr ∷ pointers_of args at

unfoldable pub words : List ℕ → List ℕ
words [] = []
words (p ∷ ps) = le_bytes 8 p ++ words ps

-- What stands before the pointers: the path and the strings, filled up to a multiple of 16.
unfoldable pub texts_of : List ℕ → List Earg → List ℕ
texts_of host args =
    let texts = host ++ (0 ∷ strings_of args) in
    texts ++ replicate ((16 - length texts % 16) % 16) 0

-- All the bytes that are written at `base`.
unfoldable pub block : ℕ → List ℕ → List Earg → List ℕ
block base host args = texts_of host args ++ words (pointers_of args (base + length host + 1))

-- The room that is asked for.
unfoldable pub block_size : List ℕ → List Earg → ℕ
block_size host args = length host + 1 + (length args + 1) * 8 + 32 + length (strings_of args)

module _ {W : Type 0} (k : Kernel W) where
  -- Writes the block and points the call to it: the result is 1, or -1 where the call is made to fail.
  unfoldable pub emit : Stop W → ℕ → ℕ → Launch → Stop W × ℤ
  emit s path_slot argv_slot l =
      let (top, base) = emuroot_scratch s.t.scratch_top (block_size l.host l.args) in
      let s' = record s { t = record s.t { scratch_top = top } } in
      let (w, done) = k.write s'.world s'.t.pid base (block base l.host l.args) in
      let s'' = record s' { world = w } in
      if not k.room
      then (fail_closed k s path_slot, negsuc 0)
      else if base == 0
      then (fail_closed k s' path_slot, negsuc 0)
      else if done
      then (
        put_arg k (put_arg k s'' path_slot base) argv_slot (base + length (texts_of l.host l.args)),
        pos 1,
      )
      else (fail_closed k s'' path_slot, negsuc 0)

  -- 1 if the call has been rewritten, -1 if it has been made to fail, and 0 if it is left alone.
  unfoldable pub emuroot_rewrite_exec : Stop W → ℕ → ℕ → Stop W × ℤ
  emuroot_rewrite_exec s path_slot argv_slot =
      let args = read_argv k s (arg_of k s argv_slot) max_exec_args in
      if arg_of k s path_slot == 0 || arg_of k s argv_slot == 0
      then (s, pos 0)
      else elim (text_at k s (arg_of k s path_slot) path_len) [
        | none ↦ (s, pos 0)
        | some exec_path ↦
            let l : Launch = record {
              args = args;
              exec_path = exec_path;
              host = [];
              rewritten = false;
            } in
            let (s', l') = expand k s max_shebang_depth l in
            if not k.room || length args == 0
            then (s, pos 0)
            else if l'.rewritten
            then emit s' path_slot argv_slot l'
            else (s', pos 0)
      ]
