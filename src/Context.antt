-- ===== src/Context.antt =====
-- src/emuroot.c and src/internal.h: the session context and the calls that set it up. The
-- ownership table, which the context owns in C, is the record of src/ownership.c, kept beside it.
pub mod Bindings
mod Examples
use emuroot.Base.{
  ℕ, zero, suc, ◌+◌, ◌-◌, Bool, true, false, Option, none, some, List, [], ◌∷◌, ◌++◌, ltb, leb,
  ◌==◌, ◌&&◌, if◌then◌else◌, length, get_or, set, take, drop, replicate, ℤ, pos, neg,
}
use emuroot.Cstring.{slash, last_char, str_eq, snprintf}

abbrev pub path_len : ℕ
path_len = 4096

abbrev pub max_bindings : ℕ
max_bindings = 128

pub record Binding : Type 0 where
  pub host : List ℕ
  pub guest : List ℕ
  pub guest_len : ℕ
  pub mount : List ℕ
  pub mount_len : ℕ

abbrev pub no_binding : Binding
no_binding = record { host = []; guest = []; guest_len = 0; mount = []; mount_len = 0 }

pub record Ctx : Type 0 where
  pub root : List ℕ
  pub bindings : List Binding
  pub nbindings : ℕ
  pub has_fake_ids : Bool
  pub fake_uid : ℕ
  pub fake_gid : ℕ
  pub has_fake_uname : Bool
  pub uname_sysname : List ℕ
  pub uname_release : List ℕ
  pub uname_machine : List ℕ
  pub ids_file : List ℕ
  pub verbose : Bool

-- `emuroot_status_t`
abbrev pub emuroot_ok : ℤ
emuroot_ok = pos 0

abbrev pub emuroot_err_nomem : ℤ
emuroot_err_nomem = neg 1

abbrev pub emuroot_err_inval : ℤ
emuroot_err_inval = neg 2

-- `calloc`: all bytes zero. (A failed allocation returns no context at all.)
unfoldable pub emuroot_create : Ctx
emuroot_create = record {
  root = [];
  bindings = replicate max_bindings no_binding;
  nbindings = 0;
  has_fake_ids = false;
  fake_uid = 0;
  fake_gid = 0;
  has_fake_uname = false;
  uname_sysname = [];
  uname_release = [];
  uname_machine = [];
  ids_file = [];
  verbose = false;
}

-- `&ctx->bindings[i]`
abbrev pub binding_at : Ctx → ℕ → Binding
binding_at c i = get_or c.bindings i no_binding

-- The new contents of `dst`, or none for EMUROOT_ERR_INVAL.
unfoldable pub copy_path : List ℕ → Option (List ℕ)
copy_path src = if leb path_len (length src) then none else some src

-- `root[len - 1] = '\0'` if len > 1 and the last byte is '/'
unfoldable pub strip_slash : List ℕ → List ℕ
strip_slash root =
    if ltb 1 (length root) && last_char root == slash then take (length root - 1) root else root

-- Pointers that may be NULL are options.
unfoldable pub emuroot_set_root : Ctx → Option (List ℕ) → Ctx × ℤ
unfolding copy_path strip_slash
emuroot_set_root c none = (c, emuroot_err_inval)
emuroot_set_root c (some new_root) = elim (copy_path new_root) [
  | none ↦ (c, emuroot_err_inval)
  | some root ↦ (record c { root = strip_slash root }, emuroot_ok)
]

-- A host path that fits is written to the free slot even where the guest path is then refused.
unfoldable pub bind_paths : Ctx → List ℕ → List ℕ → Ctx × ℤ
unfolding copy_path
bind_paths c host guest =
    let b = binding_at c c.nbindings in
    elim (copy_path host) [
      | none ↦ (c, emuroot_err_inval)
      | some h ↦ elim (copy_path guest) [
        | none ↦ (
          record c { bindings = set c.bindings c.nbindings (record b { host = h }) },
          emuroot_err_inval,
        )
        | some g ↦ (
          record c {
            bindings =
                set c.bindings c.nbindings (record b { host = h; guest = g; guest_len = length g });
            nbindings = suc c.nbindings;
          },
          emuroot_ok,
        )
      ]
    ]

unfoldable pub emuroot_bind : Ctx → Option (List ℕ) → Option (List ℕ) → Ctx × ℤ
emuroot_bind c none guest = (c, emuroot_err_inval)
emuroot_bind c (some h) none = (c, emuroot_err_inval)
emuroot_bind c (some h) (some g) =
    if leb max_bindings c.nbindings then (c, emuroot_err_nomem) else bind_paths c h g

-- The loop `for (i = n; i-- > 0;)` up to the first binding of `guest`.
unfoldable pub find_guest : Ctx → List ℕ → ℕ → Option ℕ
find_guest c guest zero = none
find_guest c guest (suc i) =
    if str_eq (binding_at c i).guest guest then some i else find_guest c guest i

-- `memmove(&bindings[i], &bindings[i + 1], n - i - 1)`: the places from n - 1 on keep their bytes.
unfoldable pub close_gap : List Binding → ℕ → ℕ → List Binding
close_gap bs i n = take i bs ++ take (n - i - 1) (drop (i + 1) bs) ++ drop (n - 1) bs

unfoldable pub emuroot_unbind : Ctx → List ℕ → Ctx × Bool
emuroot_unbind c guest = elim (find_guest c guest c.nbindings) [
  | none ↦ (c, false)
  | some i ↦ (
    record c { bindings = close_gap c.bindings i c.nbindings; nbindings = c.nbindings - 1 },
    true,
  )
]

unfoldable pub emuroot_set_fake_ids : Ctx → ℕ → ℕ → Ctx × ℤ
emuroot_set_fake_ids c uid gid =
    (record c { has_fake_ids = true; fake_uid = uid; fake_gid = gid }, emuroot_ok)

-- `s ? s : ""` into a buffer of 65 bytes
unfoldable pub uname_field : Option (List ℕ) → List ℕ
uname_field none = []
uname_field (some s) = snprintf 65 s

unfoldable pub emuroot_set_fake_uname :
    Ctx → Option (List ℕ) → Option (List ℕ) → Option (List ℕ) → Ctx × ℤ
unfolding uname_field
emuroot_set_fake_uname c sysname release machine = (
  record c {
    has_fake_uname = true;
    uname_sysname = uname_field sysname;
    uname_release = uname_field release;
    uname_machine = uname_field machine;
  },
  emuroot_ok,
)

unfoldable pub emuroot_set_ids_file : Ctx → Option (List ℕ) → Ctx × ℤ
unfolding copy_path
emuroot_set_ids_file c none = (c, emuroot_err_inval)
emuroot_set_ids_file c (some path) = elim (copy_path path) [
  | none ↦ (c, emuroot_err_inval)
  | some p ↦ (record c { ids_file = p }, emuroot_ok)
]

unfoldable pub emuroot_set_verbose : Ctx → Bool → Ctx × ℤ
emuroot_set_verbose c enable = (record c { verbose = enable }, emuroot_ok)
