-- ===== src/Path/Examples.antt =====
-- Translations of concrete paths: a root, one absolute symlink, and a climb with "..".
use emuroot.Base.{length, ◌<◌}
use emuroot.Base.{
  ℕ, ◌≡◌, refl, ◌≢◌, ◌↔◌, ◌⊎◌, inl, true, false, Option, none, some, List, [], ◌∷◌, ◌++◌,
  if◌then◌else◌, arith,
}
use emuroot.Cstring.{bytes, str_eq}
use emuroot.Context.{Ctx, emuroot_create, emuroot_bind, bind_paths, copy_path, path_len}
use emuroot.Cstring.{strn_eq, strrchr, skip_slashes, segment_len}
use emuroot.Base.{replicate}
use emuroot.Path.{
  has_prefix, pop_component, beats, matches_mount, pick_down, or_empty, or_slash, through_mount,
  all_slashes, follow_link, look_up, enter, take_component, finish, Job, Walk, walk, walk_fuel,
  start, translate_path_ex, map_to_host, host_to_guest, matches_guest, round,
}
use emuroot.Path.Stack.{Components, path_of}
use emuroot.Path.Root.{translate-guest_out, translate_contained}
use emuroot.Path.Total.{walk_total}
use emuroot.Path.Choose.{GoesThrough, map_to_host-GoesThrough}
use emuroot.Path.Over.{IsThrough, translate_over_limit}
use emuroot.Path.Inverse.{IsRest, host_to_guest-map_to_host, host_to_guest_lem}

abbrev srv : List ℕ
srv = bytes "/srv"

-- /srv/l is a symlink to /a/b, /srv/loop one to itself.
links : List ℕ → Option (List ℕ)
unfolding str_eq
links host =
    if str_eq host (bytes "/srv/l")
    then some (bytes "/a/b")
    else if str_eq host (bytes "/srv/loop")
    then some (bytes "/loop")
    else none

job : Job
unfolding emuroot_create replicate links str_eq strn_eq strrchr skip_slashes segment_len has_prefix
    pop_component beats matches_guest matches_mount pick_down or_empty or_slash through_mount
    map_to_host all_slashes follow_link look_up enter take_component round walk finish start
    translate_path_ex
job = record { ctx = emuroot_create; root = srv; follow_last = true; readlink = links }

abbrev climbing : List ℕ
climbing = bytes "/x/../../l/.//c"

climbs : (translate_path_ex job climbing).out ≡ bytes "/srv/a/b/c"
unfolding job
climbs = refl

-- The walk of /loop leaves with 41 links.
abbrev looped : Walk
looped = record { rest = []; cur = bytes "/loop"; trailing_slash = false; hops = 41 }

loops_over : walk job walk_fuel (start (bytes "/loop")) ≡ some looped
unfolding job
loops_over = refl

job_root : job.root ≢ []
unfolding job
job_root = λ e. cc

loop_fits : length (map_to_host job.ctx job.root looped.cur path_len) < path_len
unfolding job
loop_fits = omega arith

translate_over_limit_example :
    let host = map_to_host job.ctx job.root looped.cur path_len in
    (link : List ℕ) × (job.readlink host ≡ some link)
    × IsThrough host (translate_path_ex job (bytes "/loop")).out
translate_over_limit_example =
    translate_over_limit job (bytes "/loop") looped (inl job_root) refl loops_over (omega arith)
      loop_fits

translate-guest_out_example :
    (cs : List (List ℕ)) × Components cs × ((translate_path_ex job climbing).guest_out ≡ path_of cs)
translate-guest_out_example = translate-guest_out job climbing (inl job_root) refl

abbrev climbed : Walk
climbed = record { rest = []; cur = bytes "/a/b/c"; trailing_slash = false; hops = 1 }

climbs_walk : walk job walk_fuel (start climbing) ≡ some climbed
unfolding job
climbs_walk = refl

translate_contained_example :
    (cs : List (List ℕ)) × Components cs
    × (((translate_path_ex job climbing).out ≡ job.root ++ path_of cs)
        ⊎ ((translate_path_ex job climbing).out ≡ job.root ++ path_of cs ++ bytes "/"))
unfolding job
translate_contained_example =
    translate_contained job climbing climbed job_root refl refl climbs_walk refl (omega arith)

walk_total_example : (w : Walk) × (walk job walk_fuel (start (bytes "/loop")) ≡ some w)
walk_total_example = walk_total job (bytes "/loop")

abbrev stack : List (List ℕ)
stack = bytes "b" ∷ bytes "a" ∷ []

host_to_guest-map_to_host_example :
    host_to_guest job.ctx srv (map_to_host job.ctx srv (path_of stack) path_len) path_len
    ≡ some (path_of stack)
unfolding job
host_to_guest-map_to_host_example =
    host_to_guest-map_to_host job.ctx srv stack refl job_root (omega arith)

host_to_guest_lem_example :
    (host_to_guest job.ctx srv (bytes "/srv2/x") path_len ≢ none)
    ↔ ((rest : List ℕ) × IsRest rest × (bytes "/srv2/x" ≡ srv ++ rest))
unfolding job
host_to_guest_lem_example =
    host_to_guest_lem job.ctx srv (bytes "/srv2/x") refl job_root (omega arith)

-- /dev on the host, bound at /dev and again at /dev/pts.
bound : Ctx
unfolding job emuroot_bind bind_paths copy_path
bound =
    (emuroot_bind (emuroot_bind emuroot_create (some (bytes "/dev")) (some (bytes "/dev"))).0
      (some (bytes "/tmp")) (some (bytes "/dev/pts"))).0

map_to_host-GoesThrough_example : (i : ℕ) × GoesThrough bound srv (bytes "/dev/pts/0") i
unfolding bound
map_to_host-GoesThrough_example =
    map_to_host-GoesThrough bound srv (bytes "/dev/pts/0") 0 (omega arith) refl
