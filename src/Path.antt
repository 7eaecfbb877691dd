-- ===== src/Path.antt =====
-- src/path.c: guest paths to host paths and back. What the kernel answers to readlink is the
-- parameter `readlink`: the target of a symlink, or none where the call fails.
pub mod Stack
pub mod Total
pub mod Contain
pub mod Root
pub mod Choose
pub mod Links
pub mod Over
pub mod Inverse
mod Examples
use emuroot.Base.{
  ℕ, zero, suc, ◌+◌, ◌-◌, ◌*◌, Bool, true, false, not, ◌&&◌, ◌||◌, Option, none, some, List, [],
  ◌∷◌, ◌++◌, ltb, leb, ◌==◌, if◌then◌else◌, length, take, drop,
}
use emuroot.Cstring.{
  slash, dot, bytes, char_at, last_char, str_eq, strn_eq, strrchr, snprintf, skip_slashes,
  segment_len,
}
use emuroot.Context.{Ctx, Binding, binding_at, path_len}

abbrev pub max_symlink_hops : ℕ
max_symlink_hops = 40

unfoldable pub has_prefix : List ℕ → List ℕ → ℕ → Bool
has_prefix s prefix len = strn_eq s prefix len && (char_at s len == slash || char_at s len == 0)

-- `path` holds a '/'; without one the C code would write through NULL.
unfoldable pub pop_component : List ℕ → List ℕ
pop_component path = elim (strrchr path slash) [
  | none ↦ path
  | some zero ↦ take 1 path
  | some (suc i) ↦ take (suc i) path
]

-- `!best || len > best_len`
unfoldable pub beats : Option Binding → (Binding → ℕ) → Binding → Bool
beats none size b = true
beats (some best) size b = ltb (size best) (size b)

unfoldable pub matches_guest : List ℕ → Binding → Bool
matches_guest guest b = str_eq b.guest (bytes "/") || has_prefix guest b.guest b.guest_len

unfoldable pub matches_mount : List ℕ → Binding → Bool
matches_mount out b = ltb 1 b.mount_len && has_prefix out b.mount b.mount_len

-- The loops `for (i = n; i-- > 0;)` of map_to_host over the bindings, newest first.
unfoldable pub pick_down :
    Ctx → (Binding → Bool) → (Binding → ℕ) → ℕ → Option Binding → Option Binding
pick_down c fits size zero best = best
pick_down c fits size (suc i) best =
    let b = binding_at c i in
    pick_down c fits size i (if fits b && beats best size b then some b else best)

-- `strcmp(path, "/") == 0 ? "" : path`
unfoldable pub or_empty : List ℕ → List ℕ
or_empty path = if str_eq path (bytes "/") then [] else path

-- `if (!out[0]) snprintf(out, outsz, "/")`
unfoldable pub or_slash : List ℕ → List ℕ
or_slash [] = bytes "/"
or_slash (x ∷ s) = x ∷ s

unfoldable pub through_mount : Ctx → List ℕ → ℕ → List ℕ
unfolding pick_down beats matches_mount or_empty or_slash
through_mount c out outsz =
    elim (pick_down c (matches_mount out) (λ b. b.mount_len) c.nbindings none) [
      | none ↦ out
      | some mounted ↦
          let moved =
            snprintf (2 * path_len) (or_empty mounted.host ++ drop mounted.mount_len out) in
          or_slash (snprintf outsz moved)
    ]

unfoldable pub map_to_host : Ctx → List ℕ → List ℕ → ℕ → List ℕ
map_to_host c root guest outsz =
    elim (pick_down c (matches_guest guest) (λ b. b.guest_len) c.nbindings none) [
      | some best ↦
          let rest = if str_eq best.guest (bytes "/") then guest else drop best.guest_len guest in
          or_slash (snprintf outsz (or_empty best.host ++ rest))
      | none ↦ through_mount c (snprintf outsz (root ++ guest)) outsz
    ]

-- The variables of the loop in translate_path_ex: `rest` from p on, `cur`, `trailing_slash`, `hops`.
pub record Walk : Type 0 where
  pub rest : List ℕ
  pub cur : List ℕ
  pub trailing_slash : Bool
  pub hops : ℕ

-- One round ends in `continue`, or leaves the loop by `break`.
pub data Round : Type 0 where
  again stop : Walk → Round

-- What stays the same through the loop.
pub record Job : Type 0 where
  pub ctx : Ctx
  pub root : List ℕ
  pub follow_last : Bool
  pub readlink : List ℕ → Option (List ℕ)

unfoldable pub all_slashes : List ℕ → Bool
all_slashes [] = true
all_slashes (x ∷ s) = x == slash && all_slashes s

-- The symlink at `cur` has the target `link`.
unfoldable pub follow_link : Walk → List ℕ → Round
follow_link w link =
    let hops = suc w.hops in
    let target = take (path_len - 1) link in
    let tail = snprintf (2 * path_len) (target ++ w.rest) in
    if ltb max_symlink_hops hops
    then stop (record w { hops = hops })
    else again (record {
      rest = tail;
      cur = if char_at target 0 == slash then bytes "/" else pop_component w.cur;
      trailing_slash = last_char tail == slash;
      hops = hops;
    })

-- After `cur` has been extended by the component.
unfoldable pub look_up : Job → Walk → Bool → Round
look_up j w is_last =
    if is_last && not j.follow_last
    then stop w
    else let host = map_to_host j.ctx j.root w.cur path_len in
      if strn_eq host (bytes "/proc/") 6
      then stop w
      else elim (j.readlink host) [ none ↦ again w | some link ↦ follow_link w link ]

-- `comp`, `next` and `is_last` are the component, what follows it and whether it is the last.
unfoldable pub enter : Job → Walk → List ℕ → List ℕ → Bool → Round
enter j w comp next is_last =
    let w' = record w { rest = next } in
    if str_eq comp (bytes ".")
    then again w'
    else if str_eq comp (bytes "..")
    then again (record w' { cur = pop_component w.cur })
    else let curlen = length w.cur in
      if leb path_len (curlen + 1 + length comp)
      then stop w'
      else let sep = if ltb 1 curlen then bytes "/" else [] in
        look_up j (record w' { cur = w.cur ++ snprintf (path_len - curlen) (sep ++ comp) }) is_last

-- `p` begins with the component.
unfoldable pub take_component : Job → Walk → List ℕ → Round
take_component j w p =
    let len = segment_len p in
    let comp = take (if leb 256 len then 255 else len) p in
    let next = drop len p in
    let is_last = all_slashes next && (not w.trailing_slash || length next == 0) in
    enter j w comp next is_last

unfoldable pub round : Job → Walk → Round
round j w = elim (skip_slashes w.rest) [
  | [] ↦ stop (record w { rest = [] })
  | x ∷ s ↦ take_component j w (x ∷ s)
]

-- The loop, with fuel; none when that runs out.
unfoldable pub walk : Job → ℕ → Walk → Option Walk
walk j zero w = none
walk j (suc fuel) w = elim (round j w) [ stop w' ↦ some w' | again w' ↦ walk j fuel w' ]

-- Each of at most 41 texts that the loop walks is below 2 * PATH_LEN bytes.
abbrev pub walk_fuel : ℕ
walk_fuel = 42 * (2 * path_len)

unfoldable pub ends_with_slash : List ℕ → Bool
ends_with_slash s = last_char s == slash

-- What is left unwalked, and the trailing slash, go behind the host path.
unfoldable pub finish : Job → Walk → List ℕ
unfolding ends_with_slash
finish j w =
    let mapped = map_to_host j.ctx j.root w.cur path_len in
    let host =
      if length w.rest == 0
      then mapped
      else snprintf path_len
          (mapped ++ (if ends_with_slash mapped then [] else bytes "/") ++ skip_slashes w.rest) in
    if w.trailing_slash && (not (ends_with_slash host) && ltb (length host + 1) path_len)
    then host ++ bytes "/"
    else host

pub record Translation : Type 0 where
  pub out : List ℕ
  pub guest_out : List ℕ
  pub differs : Bool

unfoldable pub start : List ℕ → Walk
unfolding ends_with_slash
start guest_path = record {
  rest = snprintf (2 * path_len) guest_path;
  cur = bytes "/";
  trailing_slash = ends_with_slash guest_path;
  hops = 0;
}

-- Both buffers have PATH_LEN bytes at every call. The walk always ends within the fuel.
unfoldable pub translate_path_ex : Job → List ℕ → Translation
translate_path_ex j guest_path =
    if not (char_at guest_path 0 == slash) || (length j.root == 0 && j.ctx.nbindings == 0)
    then record {
      out = snprintf path_len guest_path;
      guest_out = snprintf path_len guest_path;
      differs = false;
    }
    else elim (walk j walk_fuel (start guest_path)) [
      | none ↦ record { out = []; guest_out = []; differs = false }
      | some w ↦
          let host = finish j w in
          record {
            out = snprintf path_len host;
            guest_out = snprintf path_len w.cur;
            differs = not (str_eq host guest_path);
          }
    ]

-- `hl > 1 && has_prefix(host, b->host, hl)`
unfoldable pub matches_host : List ℕ → Binding → Bool
matches_host host b = ltb 1 (length b.host) && has_prefix host b.host (length b.host)

-- The loop of host_to_guest, oldest binding first, with `left` rounds to go.
unfoldable pub pick_up :
    Ctx → (Binding → Bool) → (Binding → ℕ) → ℕ → ℕ → Option Binding → Option Binding
pick_up c fits size i zero best = best
pick_up c fits size i (suc left) best =
    let b = binding_at c i in
    pick_up c fits size (suc i) left (if fits b && beats best size b then some b else best)

-- The guest path, or none where the C function returns 0.
unfoldable pub host_to_guest : Ctx → List ℕ → List ℕ → ℕ → Option (List ℕ)
host_to_guest c root host outsz =
    elim (pick_up c (matches_host host) (λ b. length b.host) 0 c.nbindings none) [
      | some best ↦
          some (or_slash (snprintf outsz (or_empty best.guest ++ drop (length best.host) host)))
      | none ↦
          if not (length root == 0) && has_prefix host root (length root)
          then some (or_slash (snprintf outsz (drop (length root) host)))
          else none
    ]
