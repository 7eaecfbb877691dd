-- ===== src/Rewrite/Contained.antt =====
-- src/rewrite.c and src/path.c together: where a path argument leads once it has been rewritten.
use emuroot.Base.{
  ℕ, ◌+◌, ◌<◌, ◌≡◌, ◌≢◌, ◌⊎◌, inl, inr, Bool, true, some, List, [], ◌∷◌, ◌++◌, length,
}
use emuroot.Cstring.{bytes}
use emuroot.Context.{path_len}
use emuroot.Path.{Job, Walk, walk, walk_fuel, start}
use emuroot.Path.Stack.{Components, path_of}
use emuroot.Path.Root.{IsAbsolute, translate_contained}
use emuroot.Kernel.{Kernel, Stop}
use emuroot.Rewrite.Paths.{arg_of, translate, rewrite_path_arg}
use emuroot.Rewrite.Closed.{IsGiven, rewrite_path_arg_closed}

module _ {W : Type 0} (k : Kernel W) where
  -- What the translation of a tracee's path walks with.
  abbrev pub job_of : Stop W → Bool → Job
  job_of s follow = record {
    ctx = s.ctx;
    root = s.t.root;
    follow_last = follow;
    readlink = k.readlink s.world;
  }

  -- In a root without bindings, a path argument whose guest path is walked to its end (no stop at
  -- /proc/, at the limit on links or at a full buffer) and translated to another: behind
  -- rewrite_path_arg it is null, or points to a text that has been written for it, and that text is the
  -- root followed by a normalized path with no ".." in it, and perhaps a '/'. So the kernel is never
  -- handed a path outside the root, whatever the symlinks are.
  pub rewrite_path_arg_contained :
      (s : Stop W) (sysno slot : ℕ) (follow : Bool) (which : ℕ) (given guest : List ℕ) (w : Walk)
      → IsGiven k s sysno slot given guest
      → (translate k s follow guest).differs ≡ true
      → s.t.root ≢ []
      → s.ctx.nbindings ≡ 0
      → IsAbsolute guest
      → walk (job_of s follow) walk_fuel (start guest) ≡ some w
      → w.rest ≡ []
      → length s.t.root + length w.cur < path_len
      → let s' = rewrite_path_arg k s sysno slot follow which in
        (arg_of k s' slot ≡ 0)
        ⊎ ((before : W) × (host : List ℕ) × (cs : List (List ℕ)) × Components cs
            × (k.write before s.t.pid (arg_of k s' slot) (host ++ (0 ∷ [])) ≡ (s'.world, true))
            × ((host ≡ s.t.root ++ path_of cs) ⊎ (host ≡ s.t.root ++ path_of cs ++ bytes "/")))
  rewrite_path_arg_contained s sysno slot follow which given guest w g d root none absolute walked
        whole fits =
      let (cs, components, under) =
        translate_contained (job_of s follow) guest w root none absolute walked whole fits in
      elim (rewrite_path_arg_closed k s sysno slot follow which given guest g d) [
        | inl e ↦ inl e
        | inr (before, written) ↦
            inr (before, (translate k s follow guest).out, cs, components, written, under)
      ]
