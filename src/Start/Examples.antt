-- ===== src/Start/Examples.antt =====
-- Command lines.
use emuroot.Context.{Binding}
use emuroot.Start.Env.{write_bindings, bindings_size, write_bindings_lem}
use emuroot.Base.{arith, length, ◌<◌, ◌≡◌, refl, some, none, [], ◌∷◌, pos}
use emuroot.Cstring.{bytes}
use emuroot.Start.{
  opt_b, opt_v, split_colon, option, options, main, killed, emuroot_wait, bindings_text,
}

-- -b without a colon
no_colon : main (opt_v ∷ opt_b (bytes "/dev") ∷ []) none ≡ 2
unfolding main options option split_colon
no_colon = refl

split : split_colon (bytes "/a:/b:c") ≡ some (bytes "/a", bytes "/b:c")
unfolding split_colon
split = refl

-- A guest that a signal ends.
by_signal : emuroot_wait (none ∷ some (killed 9) ∷ []) ≡ pos 137
unfolding emuroot_wait
by_signal = refl

-- Two bindings
abbrev dev : Binding
dev = record {
  host = bytes "/dev";
  guest = bytes "/dev";
  guest_len = 4;
  mount = bytes "/srv/dev";
  mount_len = 8;
}

abbrev home : Binding
home = record dev { host = bytes "/home/me"; guest = bytes "/root" }

two_texts : bindings_text [] (dev ∷ home ∷ []) ≡ bytes "/dev:/dev;/home/me:/root"
unfolding bindings_text
two_texts = refl

write_bindings_lem_example :
    (write_bindings ([], 0) (dev ∷ home ∷ [])
      ≡ (bindings_text [] (dev ∷ home ∷ []), length (bindings_text [] (dev ∷ home ∷ []))))
    × (length (bindings_text [] (dev ∷ home ∷ [])) < bindings_size)
write_bindings_lem_example = write_bindings_lem (dev ∷ home ∷ []) (omega arith) (omega arith)
