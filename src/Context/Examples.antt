-- ===== src/Context/Examples.antt =====
-- The binding table at concrete paths.
use emuroot.Base.{
  ℕ, ◌≡◌, refl, ◌⊎◌, true, false, some, List, [], ◌∷◌, ◌++◌, length, length-replicate, arith,
}
use emuroot.Cstring.{bytes}
use emuroot.Context.{Ctx, Binding, emuroot_create, bind_paths, emuroot_bind, emuroot_unbind}
use emuroot.Context.Bindings.{
  IsValid, live, live-bind, live-unbind, unbind-bind, NotBound, bind-IsValid,
}

create-IsValid : IsValid emuroot_create
unfolding emuroot_create
create-IsValid = record { places = length-replicate 128 _; used = omega arith }

abbrev dev_path : List ℕ
dev_path = bytes "/dev"

live-bind_example :
    (b : Binding) × (live (emuroot_bind emuroot_create (some dev_path) (some dev_path)).0
      ≡ live emuroot_create ++ b ∷ [])
    × (b.host ≡ dev_path)
    × (b.guest ≡ dev_path)
    × (b.guest_len ≡ length dev_path)
unfolding emuroot_bind emuroot_create bind_paths
live-bind_example = live-bind emuroot_create dev_path dev_path create-IsValid refl

unbind-bind_example :
    let r =
      emuroot_unbind (emuroot_bind emuroot_create (some dev_path) (some dev_path)).0 dev_path in
    (r.1 ≡ true) × (live r.0 ≡ live emuroot_create)
unfolding emuroot_bind emuroot_create bind_paths
unbind-bind_example = unbind-bind emuroot_create dev_path dev_path create-IsValid refl

bound_dev : Ctx
unfolding emuroot_bind emuroot_create bind_paths
bound_dev = (emuroot_bind emuroot_create (some dev_path) (some dev_path)).0

bound_dev-IsValid : IsValid bound_dev
unfolding bound_dev
bound_dev-IsValid = bind-IsValid emuroot_create dev_path dev_path create-IsValid

live-unbind_example :
    let r = emuroot_unbind bound_dev dev_path in
    ((r.1 ≡ false) × (r.0 ≡ bound_dev) × NotBound dev_path (live bound_dev))
    ⊎ ((before : List Binding) × (b : Binding) × (after : List Binding) × (r.1 ≡ true)
        × (live bound_dev ≡ before ++ b ∷ after)
        × (b.guest ≡ dev_path)
        × NotBound dev_path after
        × (live r.0 ≡ before ++ after))
live-unbind_example = live-unbind bound_dev dev_path bound_dev-IsValid
