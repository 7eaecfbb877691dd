-- ===== src/Rewrite/Examples.antt =====
-- A path of 20 bytes below a stack pointer, and calls of a process under /srv that name "/etc/x".
use emuroot.Base.{
  some, [], ◌∷◌, ◌++◌, ◌+◌, ◌%◌, ◌≤◌, ◌<◌, ◌≡◌, ◌⊎◌, ℕ, refl, true, false, List, replicate, arith,
}
use emuroot.Cstring.{bytes, str_eq, strn_eq, skip_slashes, segment_len}
use emuroot.Regs.{reg_arg}
use emuroot.Guest.{guest_read_str, read_chunks, after_chunk, chunk_len, has_nul, c_string}
use emuroot.Context.{emuroot_create}
use emuroot.Path.{
  Walk, walk_fuel, has_prefix, pop_component, beats, matches_guest, matches_mount, pick_down,
  or_empty, or_slash, through_mount, map_to_host, all_slashes, follow_link, look_up, enter,
  take_component, round, walk, finish, start, translate_path_ex,
}
use emuroot.Kernel.{Stop}
use emuroot.Kernel.Sample.{sample, path_addr, at_call, tracee}
use emuroot.Rewrite.{emuroot_scratch, absolute_guest_path}
use emuroot.Rewrite.Scratch.{scratch_lem}
use emuroot.Rewrite.Paths.{arg_of, rewrite_path_arg, translate}
use emuroot.Path.Stack.{Components, path_of}
use emuroot.Rewrite.Contained.{job_of, rewrite_path_arg_contained}
use emuroot.Rewrite.Closed.{IsRedirected, IsGiven, rewrite_path_arg_closed}

scratch_lem_example :
    let (top', addr) = emuroot_scratch 4096 20 in
    ((4096 < 20) × (addr ≡ 0) × (top' ≡ 4096))
    ⊎ ((addr + 20 ≤ 4096) × (4096 < addr + 20 + 16) × (addr % 16 ≡ 0) × (top' ≡ addr))
scratch_lem_example = scratch_lem 4096 20 (omega arith) (omega arith)

-- The call of number 1 with the path.
abbrev path_call : Stop (List ℕ)
path_call = at_call 1 path_addr

path_call-IsGiven : IsGiven sample path_call 1 1 (bytes "/etc/x") (bytes "/etc/x")
unfolding at_call tracee reg_arg guest_read_str read_chunks after_chunk chunk_len has_nul c_string
    absolute_guest_path
path_call-IsGiven = record {
  in_slot = refl;
  some_root = refl;
  not_null = refl;
  read = refl;
  not_empty = refl;
  lenient = refl;
  named = refl;
}

differs : (translate sample path_call true (bytes "/etc/x")).differs ≡ true
unfolding at_call tracee emuroot_create replicate str_eq strn_eq skip_slashes segment_len has_prefix
    pop_component beats matches_guest matches_mount pick_down or_empty or_slash through_mount
    map_to_host all_slashes follow_link look_up enter take_component round walk finish start
    translate_path_ex
differs = refl

rewrite_path_arg_closed_example :
    IsRedirected sample 7
      (rewrite_path_arg sample path_call 1 1 true 0)
      1
      (translate sample path_call true (bytes "/etc/x")).out
unfolding at_call tracee
rewrite_path_arg_closed_example =
    rewrite_path_arg_closed sample path_call 1 1 true 0 (bytes "/etc/x") (bytes "/etc/x")
      path_call-IsGiven differs

-- The call with a pointer to memory that cannot be read.
abbrev wild : Stop (List ℕ)
wild = at_call 1 5

-- The walk of the path, to its end.
abbrev walked : Walk
walked = record { rest = []; cur = bytes "/etc/x"; trailing_slash = false; hops = 0 }

walks : walk (job_of sample path_call true) walk_fuel (start (bytes "/etc/x")) ≡ some walked
unfolding at_call tracee emuroot_create replicate str_eq strn_eq skip_slashes segment_len has_prefix
    pop_component beats matches_guest matches_mount pick_down or_empty or_slash through_mount
    map_to_host all_slashes follow_link look_up enter take_component round walk finish start
    translate_path_ex
walks = refl

rewrite_path_arg_contained_example :
    let s' = rewrite_path_arg sample path_call 1 1 true 0 in
    (arg_of sample s' 1 ≡ 0)
    ⊎ ((before : List ℕ) × (host : List ℕ) × (cs : List (List ℕ)) × Components cs
        × (sample.write before 7 (arg_of sample s' 1) (host ++ (0 ∷ [])) ≡ (s'.world, true))
        × ((host ≡ path_call.t.root ++ path_of cs)
            ⊎ (host ≡ path_call.t.root ++ path_of cs ++ bytes "/")))
unfolding at_call tracee emuroot_create
rewrite_path_arg_contained_example =
    rewrite_path_arg_contained sample path_call 1 1 true 0 (bytes "/etc/x") (bytes "/etc/x") walked
      path_call-IsGiven differs (λ e. cc e) refl refl walks refl (omega arith)
